-- ===== src/Api/Http.antt =====
-- internal/api/handler.go: requests and responses as the handlers see them. A handler gets the
-- system that the bearer token stands for, the parsed key of the path and the decoded body, each
-- as the middleware, uuid.Parse and encoding/json leave it; `none` and the failures of `Body` are
-- their errors.
use opensourcebackup.Prelude.{Bool, Option, String, false, none, refl, some, true, ℕ, ◌≡◌}
use opensourcebackup.Catalog.Models.{
  DeleteError, Result, StoreError, conflict, err, illegal_transition, not_found, ok,
  still_referenced, store_refused,
}

pub data Body {ℓ} (B : Type ℓ) : Type ℓ where
  decoded : B → Body B
  too_large malformed : Body B

pub record Request {ℓ} (B : Type ℓ) : Type ℓ where
  pub system : Option ℕ
  pub path_id : Option ℕ
  pub body : Body B

-- A status code with a JSON body, or an error. `error_with` has the text of the error; `error` leaves it
-- out, where no theorem is about it.
pub data Response {ℓ} (A : Type ℓ) : Type ℓ where
  reply : ℕ → A → Response A
  error : ℕ → Response A
  error_with : ℕ → String → Response A

abbrev pub status_code {ℓ} : {A : Type ℓ} → Response A → ℕ
status_code (reply c _) = c
status_code (error c) = c
status_code (error_with c _) = c

unfoldable pub http_status_for_error : StoreError → ℕ
http_status_for_error not_found = 404
http_status_for_error conflict = 409
http_status_for_error (illegal_transition _) = 409

-- The same of a DELETE; the database's own error is the default case.
abbrev pub delete_status : DeleteError → ℕ
delete_status (store_refused e) = http_status_for_error e
delete_status still_referenced = 500

unfoldable pub safe_error_message : StoreError → String
safe_error_message not_found = "not found"
safe_error_message conflict = "conflict"
safe_error_message (illegal_transition _) = "job is no longer in a state that allows this change"

-- handleDecodeError
abbrev pub decode_status {ℓ} : {B : Type ℓ} → Body B → ℕ
decode_status (decoded _) = 200
decode_status too_large = 413
decode_status malformed = 400

-- A step of a handler either goes on or writes the response of an early return.
pub data Flow {ℓ κ} (R : Type ℓ) (A : Type κ) : Type (ℓ ⊔ κ) where
  go : A → Flow R A
  stop : R → Flow R A

infixl 5 ◌>>=◌ ◌>>◌
abbrev pub ◌>>=◌ {ℓ κ μ} :
    {R : Type ℓ} {A : Type κ} {B : Type μ} → Flow R A → (A → Flow R B) → Flow R B
go a >>= f = f a
stop r >>= f = stop r

abbrev pub ◌>>◌ {ℓ κ} : {R : Type ℓ} {B : Type κ} → Flow R (Unit {0}) → Flow R B → Flow R B
m >> k = m >>= λ _. k

abbrev pub require {ℓ κ} : {R : Type ℓ} {A : Type κ} → Option A → R → Flow R A
require none r = stop r
require (some a) r = go a

abbrev pub require_ok {ℓ κ} :
    {R : Type ℓ} {A : Type κ} → Result StoreError A → (StoreError → R) → Flow R A
require_ok (ok a) f = go a
require_ok (err e) f = stop (f e)

abbrev pub require_body {ℓ κ} : {R : Type ℓ} {B : Type κ} → Body B → (ℕ → R) → Flow R B
require_body (decoded b) f = go b
require_body b f = stop (f (decode_status b))

abbrev pub require_true {ℓ} : {R : Type ℓ} → Bool → R → Flow R (Unit {0})
require_true true r = go tt
require_true false r = stop r

-- The response that a handler ends with.
abbrev pub finish {ℓ} : {R : Type ℓ} → Flow R R → R
finish (go r) = r
finish (stop r) = r

-- To show something of a handler's answer, show it of each early return and of the rest.
module _ {ℓ κ μ} {R : Type ℓ} {A : Type κ} (P : R → Type μ) (k : A → Flow R R) where
  pub finish-require :
      (o : Option A) (r : R)
      → (o ≡ none → P r)
      → ((a : A) → o ≡ some a → P (finish (k a)))
      → P (finish (require o r >>= k))
  finish-require none r e h = e refl
  finish-require (some a) r e h = h a refl

  pub finish-require_ok :
      (o : Result StoreError A) (f : StoreError → R)
      → ((x : StoreError) → o ≡ err x → P (f x))
      → ((a : A) → o ≡ ok a → P (finish (k a)))
      → P (finish (require_ok o f >>= k))
  finish-require_ok (ok a) f e h = h a refl
  finish-require_ok (err x) f e h = e x refl

  pub finish-require_body :
      (o : Body A) (f : ℕ → R)
      → ((c : ℕ) → decode_status o ≡ c → P (f c))
      → ((a : A) → o ≡ decoded a → P (finish (k a)))
      → P (finish (require_body o f >>= k))
  finish-require_body (decoded a) f e h = h a refl
  finish-require_body too_large f e h = e 413 refl
  finish-require_body malformed f e h = e 400 refl

  pub finish-bind :
      (m : Flow R A)
      → ((r : R) → m ≡ stop r → P r)
      → ((a : A) → m ≡ go a → P (finish (k a)))
      → P (finish (m >>= k))
  finish-bind (go a) e h = h a refl
  finish-bind (stop r) e h = e r refl

module _ {ℓ μ} {R : Type ℓ} (P : R → Type μ) (m : Flow R R) where
  pub finish-require_true :
      (b : Bool) (r : R)
      → (b ≡ false → P r)
      → (b ≡ true → P (finish m))
      → P (finish (require_true b r >> m))
  finish-require_true true r e h = h refl
  finish-require_true false r e h = e refl
