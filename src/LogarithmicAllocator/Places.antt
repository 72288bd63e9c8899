-- ===== src/LogarithmicAllocator/Places.antt =====
-- LogarithmicAllocator: lists of different places, and one place taken out of them.
use sharedstructures.Base.{ℕ, ◌≢◌, sym, List, [], ◌∷◌, ◌++◌, Each, Away, Distinct}

pub Each-front : (P : ℕ → Type 0) (xs ys : List ℕ) → Each P (xs ++ ys) → Each P xs
Each-front P [] ys h = tt
Each-front P (x ∷ xs) ys h = (h.0, Each-front P xs ys (h.1))

pub Each-back : (P : ℕ → Type 0) (xs ys : List ℕ) → Each P (xs ++ ys) → Each P ys
Each-back P [] ys h = h
Each-back P (x ∷ xs) ys h = Each-back P xs ys (h.1)

pub Each-without :
    (P : ℕ → Type 0) (xs : List ℕ) (x : ℕ) (ys : List ℕ)
    → Each P (xs ++ (x ∷ ys))
    → Each P (xs ++ ys)
Each-without P [] x ys h = h.1
Each-without P (z ∷ zs) x ys h = (h.0, Each-without P zs x ys (h.1))

pub Distinct-front : (xs ys : List ℕ) → Distinct (xs ++ ys) → Distinct xs
Distinct-front [] ys d = tt
Distinct-front (x ∷ xs) ys d = (Each-front (λ z. x ≢ z) xs ys (d.0), Distinct-front xs ys (d.1))

pub Distinct-back : (xs ys : List ℕ) → Distinct (xs ++ ys) → Distinct ys
Distinct-back [] ys d = d
Distinct-back (x ∷ xs) ys d = Distinct-back xs ys (d.1)

pub Distinct-without :
    (xs : List ℕ) (x : ℕ) (ys : List ℕ) → Distinct (xs ++ (x ∷ ys)) → Distinct (xs ++ ys)
Distinct-without [] x ys d = d.1
Distinct-without (z ∷ zs) x ys d =
    (Each-without (λ a. z ≢ a) zs x ys (d.0), Distinct-without zs x ys (d.1))

-- The places in front are away from those behind, and the other way round.
pub Distinct-apart : (xs ys : List ℕ) → Distinct (xs ++ ys) → Each (λ a. Away a ys) xs
Distinct-apart [] ys d = tt
Distinct-apart (x ∷ xs) ys d = (Each-back (λ z. x ≢ z) xs ys (d.0), Distinct-apart xs ys (d.1))

pub Distinct-Away : (xs : List ℕ) (x : ℕ) (ys : List ℕ) → Distinct (xs ++ (x ∷ ys)) → Away x xs
Distinct-Away [] x ys d = tt
Distinct-Away (z ∷ zs) x ys d =
    let a = Each-back (λ b. z ≢ b) zs (x ∷ ys) (d.0) in
    (λ e. a.0 (sym e), Distinct-Away zs x ys (d.1))
