-- ===== src/Wrapper/Null.antt =====
-- The test and the comparison of pointers.
use ssh2_cpp.Base.{ℕ, Bool, true, false, ◌==◌, Option, none, some}

-- `!p`
abbrev pub is_null {ℓ} : {A : Type ℓ} → Option A → Bool
is_null none = true
is_null (some p) = false

-- The comparison of two pointers.
abbrev pub same_pointer : Option ℕ → Option ℕ → Bool
same_pointer none none = true
same_pointer (some p) (some q) = p == q
same_pointer _ _ = false
