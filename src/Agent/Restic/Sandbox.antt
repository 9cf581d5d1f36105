-- ===== src/Agent/Restic/Sandbox.antt =====
-- internal/agent/restic/runner.go, validateRestorePath: which targets of a restore it accepts. A path is the
-- list of its bytes; filepath.Abs, strings.TrimSpace and filepath.VolumeName are arguments.
use opensourcebackup.Prelude.{
  Bool, Bool-cases, List, Option, [], ap, arith, false, if◌then◌else◌, inl, inr, none, refl, some,
  true, ℕ, ◌&&◌, ◌++◌, ◌==◌, ◌||◌, ◌∙◌, ◌∷◌, ◌≡◌, ◌≢◌, ◌⊎◌,
}
use opensourcebackup.Catalog.Models.{Result, err, ok}

abbrev pub FilePath : Type 0
FilePath = List ℕ

pub data PathError : Type 0 where
  blank_target no_absolute_path file_system_root outside_root : PathError

abbrev pub same_path : FilePath → FilePath → Bool
same_path [] [] = true
same_path (x ∷ a) (y ∷ b) = (x == y) && same_path a b
same_path _ _ = false

-- strings.HasPrefix.
abbrev pub has_prefix : FilePath → FilePath → Bool
has_prefix [] path = true
has_prefix (x ∷ a) [] = false
has_prefix (x ∷ a) (y ∷ b) = (x == y) && has_prefix a b

-- The byte of "/".
abbrev pub slash : ℕ
slash = 47

abbrev pub is_file_system_root : ℕ → (FilePath → FilePath) → FilePath → Bool
is_file_system_root separator volume a =
    same_path a (slash ∷ []) || same_path a (volume a ++ separator ∷ [])

abbrev pub under : ℕ → FilePath → FilePath → Bool
under separator root a = has_prefix (root ++ separator ∷ []) a || same_path a root

abbrev pub check_root : ℕ → FilePath → Option FilePath → Result PathError (Unit {0})
check_root separator a none = err no_absolute_path
check_root separator a (some r) = if under separator r a then ok tt else err outside_root

module _ (separator : ℕ) (is_blank : FilePath → Bool) (absolute : FilePath → Option FilePath)
    (volume : FilePath → FilePath) where
  -- Without a root every other target is accepted.
  abbrev pub check_against : FilePath → FilePath → Result PathError (Unit {0})
  check_against a [] = ok tt
  check_against a (x ∷ root) = check_root separator a (absolute (x ∷ root))

  abbrev pub check_target : Option FilePath → FilePath → Result PathError (Unit {0})
  check_target none root = err no_absolute_path
  check_target (some a) root =
      if is_file_system_root separator volume a then err file_system_root else check_against a root

  unfoldable pub validate_restore_path : FilePath → FilePath → Result PathError (Unit {0})
  validate_restore_path target root =
      if is_blank target then err blank_target else check_target (absolute target) root

same_path-eq : (a b : FilePath) → same_path a b ≡ true → a ≡ b
same_path-eq [] [] h = refl
same_path-eq (x ∷ a) (y ∷ b) h = ground (arith, same_path-eq a b)
same_path-eq [] (y ∷ b) h = absurd (ground arith)
same_path-eq (x ∷ a) [] h = absurd (ground arith)

has_prefix-append :
    (p path : FilePath) → has_prefix p path ≡ true → (rest : FilePath) × (path ≡ p ++ rest)
has_prefix-append [] path h = (path, refl)
has_prefix-append (x ∷ p) [] h = absurd (ground arith)
has_prefix-append (x ∷ p) (y ∷ path) h =
    let (rest, e) = has_prefix-append p path (ground (arith, h)) in (rest, ground (arith, h, e))

append-cons : (p rest : FilePath) (x : ℕ) → (p ++ x ∷ []) ++ rest ≡ p ++ x ∷ rest
append-cons [] rest x = refl
append-cons (y ∷ p) rest x = ap (y ∷◌) (append-cons p rest x)

-- The path is the root or stands below it.
abbrev pub Inside : ℕ → FilePath → FilePath → Type 0
Inside separator r a = (a ≡ r) ⊎ ((rest : FilePath) × (a ≡ r ++ separator ∷ rest))

-- What an accepted target satisfies.
abbrev pub Sandboxed :
    ℕ → (FilePath → Option FilePath) → (FilePath → FilePath) → FilePath → FilePath → Type 0
Sandboxed separator absolute volume target root =
    (a : FilePath) × (absolute target ≡ some a)
    × (is_file_system_root separator volume a ≡ false)
    × (root ≢ [] → (r : FilePath) × (absolute root ≡ some r) × Inside separator r a)

module _ (separator : ℕ) (is_blank : FilePath → Bool) (absolute : FilePath → Option FilePath)
    (volume : FilePath → FilePath) where
  under-Inside : (r a : FilePath) → under separator r a ≡ true → Inside separator r a
  under-Inside r a h = elim (Bool-cases (same_path a r)) [
    | inl same ↦ inl (same_path-eq a r same)
    | inr differs ↦
        let (rest, e) = has_prefix-append (r ++ separator ∷ []) a (ground (arith, h, differs)) in
        inr (rest, e ∙ append-cons r rest separator)
  ]

  check_root-Inside :
      (a : FilePath) (o : Option FilePath)
      → check_root separator a o ≡ ok tt
      → (r : FilePath) × (o ≡ some r) × Inside separator r a
  check_root-Inside a none h = absurd (ground (arith, h))
  check_root-Inside a (some r) h = (r, refl, under-Inside r a (ground (arith, h)))

  check_against-Inside :
      (a root : FilePath)
      → check_against separator is_blank absolute volume a root ≡ ok tt
      → root ≢ []
      → (r : FilePath) × (absolute root ≡ some r) × Inside separator r a
  check_against-Inside a [] h ne = absurd (ne refl)
  check_against-Inside a (x ∷ root) h ne = check_root-Inside a (absolute (x ∷ root)) h

  check_target-Sandboxed :
      (target root : FilePath) (o : Option FilePath)
      → absolute target ≡ o
      → check_target separator is_blank absolute volume o root ≡ ok tt
      → Sandboxed separator absolute volume target root
  check_target-Sandboxed target root none e h = absurd (ground (arith, h))
  check_target-Sandboxed target root (some a) e h =
      elim (Bool-cases (is_file_system_root separator volume a)) [
        | inl danger ↦ absurd (ground (arith, h, danger))
        | inr safe ↦ (a, e, safe, check_against-Inside a root (ground (arith, h, safe)))
      ]

  -- A target that validateRestorePath accepts has an absolute path that is not the root of a file
  -- system; and where a restore root is set, that path is the root's absolute path or stands below
  -- it: it continues the root after a separator, so a directory whose name only begins like the
  -- root's is outside.
  pub validate_restore_path-Sandboxed :
      (target root : FilePath)
      → validate_restore_path separator is_blank absolute volume target root ≡ ok tt
      → Sandboxed separator absolute volume target root
  unfolding validate_restore_path
  validate_restore_path-Sandboxed target root h = elim (Bool-cases (is_blank target)) [
    | inl blank ↦ absurd (ground (arith, h, blank))
    | inr given ↦
        check_target-Sandboxed target root (absolute target) refl (ground (arith, h, given))
  ]
