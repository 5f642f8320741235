-- ===== src/Prelude/Perms.antt =====
-- Permutations and the lengths of lists.
use Prim.Native.Nat.{suc}
use mathlib.Core.List.{List, [], ◌∷◌, ◌++◌, append-nil, Perm, perm_middle}
use mathlib.Core.List
use mathlib.Core.List.Perm
use mathlib.Core.Path.{◌≡◌, refl, sym, ap, subst, ◌∙◌}
use native.Mathlib.Bridge.{from_ℕ}
use optio_test.Prelude.Lists.{length}

length_bridge {ℓ} : {A : Type ℓ} (xs : List A) → length xs ≡ from_ℕ (List.length xs)
length_bridge [] = refl
length_bridge (x ∷ xs) = ap suc (length_bridge xs)

pub length-perm {ℓ} : {A : Type ℓ} {xs ys : List A} → Perm xs ys → length xs ≡ length ys
length-perm {xs = xs} {ys = ys} p =
    length_bridge xs ∙ (ap from_ℕ (Perm.length-eq p) ∙ sym (length_bridge ys))

pub Perm-append_comm {ℓ} : {A : Type ℓ} (xs ys : List A) → Perm (xs ++ ys) (ys ++ xs)
Perm-append_comm [] ys = subst (Perm ys) (sym (append-nil ys)) (Perm.refl ys)
Perm-append_comm (x ∷ xs) ys =
    Perm.trans (Perm.cons x (Perm-append_comm xs ys)) (Perm.symm (perm_middle ys xs))
