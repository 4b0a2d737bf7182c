-- ===== src/Acceptance/Paths.antt =====
-- `std::path::PathBuf` as the harness uses it: whether the path is absolute, and its components.
use mathlib.Core.Path.{subst}
use rollup_starter.Common.{
  Bool, true, false, String, List, [], ◌∷◌, ◌++◌, Option, none, some, if◌then◌else◌, ◌≡◌, refl,
  arith,
}

pub record FilePath : Type 0 where
  pub is_absolute : Bool
  pub components : List String

-- `Path::join`: an absolute argument replaces the path.
unfoldable pub join : FilePath → FilePath → FilePath
join p q = if q.is_absolute then q else record p { components = p.components ++ q.components }

-- `join` with the name of a file.
abbrev pub relative : String → FilePath
relative name = record { is_absolute = false; components = name ∷ [] }

abbrev pub drop_last : List String → List String
drop_last [] = []
drop_last (x ∷ []) = []
drop_last (x ∷ y ∷ ys) = x ∷ drop_last (y ∷ ys)

-- `Path::parent`: none for a root and for the empty path.
unfoldable pub parent : FilePath → Option FilePath
parent p = elim p.components [
  | [] ↦ none
  | x ∷ xs ↦ some (record p { components = drop_last (x ∷ xs) })
]

unfoldable pub absolutize_from_cwd : FilePath → FilePath → FilePath
unfolding join
absolutize_from_cwd path cwd = if path.is_absolute then path else join cwd path

pub absolutize_from_cwd-is_absolute :
    (path cwd : FilePath)
    → cwd.is_absolute ≡ true
    → (absolutize_from_cwd path cwd).is_absolute ≡ true
unfolding absolutize_from_cwd
absolutize_from_cwd-is_absolute path cwd h = ground arith

pub join-is_absolute : (p q : FilePath) → p.is_absolute ≡ true → (join p q).is_absolute ≡ true
unfolding join
join-is_absolute p q h = ground arith

pub parent-is_absolute :
    (p q : FilePath) → p.is_absolute ≡ true → parent p ≡ some q → q.is_absolute ≡ true
unfolding parent
parent-is_absolute p q h e = go p.components e
  where
    go :
        (cs : List String)
        → (elim cs as (λ _. Option FilePath) [
          | [] ↦ none
          | x ∷ xs ↦ some (record p { components = drop_last (x ∷ xs) })
        ])
          ≡ some q
        → q.is_absolute ≡ true
    go [] k = absurd (cc k)
    go (x ∷ xs) k =
        let same : record p { components = drop_last (x ∷ xs) } ≡ q = cc k in
        subst (λ r. r.is_absolute ≡ true) same h

-- The directory of a file that was named in it.
drop_last-append : (xs : List String) (x : String) → drop_last (xs ++ x ∷ []) ≡ xs
drop_last-append [] x = refl
drop_last-append (y ∷ []) x = refl
drop_last-append (y ∷ z ∷ zs) x = rw (drop_last-append (z ∷ zs) x)
