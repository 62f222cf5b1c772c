-- ===== src/Tasks/Links.antt =====
-- The blocks that a list of tasks is linked through.
use os_dev_mtk.Base.{ℕ, ◌≡◌, ◌≢◌, refl, false, Option, some, List, [], ◌∷◌, ◌++◌, arith, ◌==◌}
use os_dev_mtk.Tasks.{Task, write}

-- An address that is not in a list.
abbrev pub IsNew : ℕ → List ℕ → Type 0
IsNew a [] = Unit {0}
IsNew a (x ∷ xs) = (a ≢ x) × IsNew a xs

-- From the pointer `p` on, the list is linked forwards, up to NULL.
abbrev pub Linked : (ℕ → Option Task) → (p : ℕ) → List ℕ → Type 0
Linked tasks p [] = p ≡ 0
Linked tasks p (x ∷ xs) =
    (p ≡ x) × (x ≢ 0) × IsNew x xs × (t : Task) × (tasks x ≡ some t) × Linked tasks t.next xs

-- The same, and each task points back to the one before it, the first one to `prev`.
abbrev pub Backed : (ℕ → Option Task) → (prev p : ℕ) → List ℕ → Type 0
Backed tasks prev p [] = p ≡ 0
Backed tasks prev p (x ∷ xs) =
    (p ≡ x)
    × (x ≢ 0)
    × IsNew x xs
    × (t : Task) × (tasks x ≡ some t)
    × (t.prev ≡ prev)
    × Backed tasks x t.next xs

abbrev pub last_or : ℕ → List ℕ → ℕ
last_or d [] = d
last_or d (x ∷ xs) = last_or x xs

pub IsNew-append : (a : ℕ) (xs ys : List ℕ) → IsNew a (xs ++ ys) → IsNew a xs × IsNew a ys
IsNew-append a [] ys n = (tt, n)
IsNew-append a (x ∷ xs) ys n = let (left, right) = IsNew-append a xs ys n.1 in ((n.0, left), right)

pub append-IsNew : (a : ℕ) (xs ys : List ℕ) → IsNew a xs → IsNew a ys → IsNew a (xs ++ ys)
append-IsNew a [] ys n m = m
append-IsNew a (x ∷ xs) ys n m = (n.0, append-IsNew a xs ys n.1 m)

-- A task of the list is no new address.
pub last-ne : (a x : ℕ) (xs : List ℕ) → IsNew a (x ∷ xs) → a ≢ last_or x xs
last-ne a x [] n = n.0
last-ne a x (y ∷ xs) n = last-ne a y xs n.1

pub Backed-Linked :
    (tasks : ℕ → Option Task) (prev p : ℕ) (xs : List ℕ)
    → Backed tasks prev p xs
    → Linked tasks p xs
Backed-Linked tasks prev p [] b = b
Backed-Linked tasks prev p (x ∷ xs) (e, nz, new, t, at, back, rest) =
    (e, nz, new, t, at, Backed-Linked tasks x t.next xs rest)

-- A store at an address that is not in the list changes nothing of it.
pub Backed-write :
    (tasks : ℕ → Option Task) (a : ℕ) (c : Option Task) (prev p : ℕ) (xs : List ℕ)
    → IsNew a xs
    → Backed tasks prev p xs
    → Backed (write tasks a c) prev p xs
Backed-write tasks a c prev p [] n b = b
Backed-write tasks a c prev p (x ∷ xs) n (e, nz, new, t, at, back, rest) =
    let other : (x == a) ≡ false = ground (arith, n.0) in
    (e, nz, new, t, rw (other, at) refl, back, Backed-write tasks a c x t.next xs n.1 rest)

pub Linked-write :
    (tasks : ℕ → Option Task) (a : ℕ) (c : Option Task) (p : ℕ) (xs : List ℕ)
    → IsNew a xs
    → Linked tasks p xs
    → Linked (write tasks a c) p xs
Linked-write tasks a c p [] n b = b
Linked-write tasks a c p (x ∷ xs) n (e, nz, new, t, at, rest) =
    let other : (x == a) ≡ false = ground (arith, n.0) in
    (e, nz, new, t, rw (other, at) refl, Linked-write tasks a c t.next xs n.1 rest)
