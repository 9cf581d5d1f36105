-- ===== src/Security/Csrf.antt =====
-- internal/security/csrf.go: the double-submit cookie.
use opensourcebackup.Prelude.{
  Bool, Option, String, false, if◌then◌else◌, is_none, none, not, some, str_eq, true, ℕ, ◌&&◌, ◌||◌,
}

-- HTTP methods, as far as the code tells them apart.
pub data Method : Type 0 where
  method_get method_post method_put method_delete method_patch method_other : Method

unfoldable pub is_mutating : Method → Bool
is_mutating method_post = true
is_mutating method_put = true
is_mutating method_delete = true
is_mutating method_patch = true
is_mutating _ = false

-- What CSRFProtect does with a request: `some` is the status of a refusal, and the Boolean says
-- whether a new cookie is set. `exempt` is the test of the path on the exempt prefixes.
unfoldable pub csrf_protect : Method → Bool → Option String → String → Option ℕ × Bool
csrf_protect method exempt cookie header =
    if is_mutating method && not exempt
    then elim cookie [
      | none ↦ (some 403, false)
      | some c ↦ if str_eq c "" || not (str_eq c header) then (some 403, false) else (none, false)
    ]
    else (none, is_none cookie)
