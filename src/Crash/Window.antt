-- ===== src/Crash/Window.antt =====
-- Crashes counted in a window: what dropping old or surplus entries of an ascending list keeps.
use clusterkit.Common.{
  ℕ, zero, suc, ◌+◌, ◌-◌, ◌≤◌, ◌<◌, min, ◌≡◌, refl, Bool, List, [], ◌∷◌, ◌++◌, if◌then◌else◌,
  length, drop, length-drop, filterb, All, arith, ap, ◌∙◌,
}
use clusterkit.Crash.{keeps, limit}

-- How many of the times lie in the window that ends now.
pub recent : ℕ → ℕ → List ℕ → ℕ
recent w now [] = 0
recent w now (t ∷ ts) = if keeps w now t then suc (recent w now ts) else recent w now ts

abbrev pub Ascends : ℕ → List ℕ → Type 0
Ascends lo [] = Unit {0}
Ascends lo (t ∷ ts) = (lo ≤ t) × Ascends t ts

abbrev pub UpTo : ℕ → List ℕ → Type 0
UpTo hi ts = All (λ t. t ≤ hi) ts

Ascends-weaken : (lo hi : ℕ) (ts : List ℕ) → lo ≤ hi → Ascends hi ts → Ascends lo ts
Ascends-weaken lo hi [] h a = tt
Ascends-weaken lo hi (t ∷ ts) h a = (omega arith, a.1)

pub Ascends-push :
    (lo now : ℕ) (ts : List ℕ)
    → lo ≤ now
    → UpTo now ts
    → Ascends lo ts
    → Ascends lo (ts ++ now ∷ [])
Ascends-push lo now [] h u a = (h, tt)
Ascends-push lo now (t ∷ ts) h u a = (a.0, Ascends-push t now ts u.0 u.1 a.1)

pub UpTo-push : (now : ℕ) (ts : List ℕ) → UpTo now ts → UpTo now (ts ++ now ∷ [])
UpTo-push now [] u = (omega arith, tt)
UpTo-push now (t ∷ ts) u = (u.0, UpTo-push now ts u.1)

pub UpTo-later : (m n : ℕ) (ts : List ℕ) → m ≤ n → UpTo m ts → UpTo n ts
UpTo-later m n [] h u = tt
UpTo-later m n (t ∷ ts) h u = (omega arith, UpTo-later m n ts h u.1)

Ascends-drop : (lo k : ℕ) (ts : List ℕ) → Ascends lo ts → Ascends lo (drop k ts)
Ascends-drop lo zero ts a = a
Ascends-drop lo (suc k) [] a = tt
Ascends-drop lo (suc k) (t ∷ ts) a = Ascends-weaken lo t (drop k ts) a.0 (Ascends-drop t k ts a.1)

UpTo-drop : (hi k : ℕ) (ts : List ℕ) → UpTo hi ts → UpTo hi (drop k ts)
UpTo-drop hi zero ts u = u
UpTo-drop hi (suc k) [] u = tt
UpTo-drop hi (suc k) (t ∷ ts) u = UpTo-drop hi k ts u.1

module _ (p : ℕ → Bool) where
  Ascends-filterb : (lo : ℕ) (ts : List ℕ) → Ascends lo ts → Ascends lo (filterb p ts)
  unfolding filterb
  Ascends-filterb lo [] a = tt
  Ascends-filterb lo (t ∷ ts) a =
      ground (arith, Ascends-filterb t ts a.1, Ascends-weaken lo t (filterb p ts))

  UpTo-filterb : (hi : ℕ) (ts : List ℕ) → UpTo hi ts → UpTo hi (filterb p ts)
  unfolding filterb
  UpTo-filterb hi [] u = tt
  UpTo-filterb hi (t ∷ ts) u = ground (arith, UpTo-filterb hi ts u.1)

pub recent-push :
    (w now t : ℕ) (ts : List ℕ)
    → recent w now (ts ++ t ∷ []) ≡ recent w now ts + (if keeps w now t then 1 else 0)
unfolding recent
recent-push w now t [] = ground arith
recent-push w now t (x ∷ ts) = ground (arith, recent-push w now t ts)

-- What an earlier prune dropped is out of every later window.
pub recent-filterb :
    (w m n : ℕ) (ts : List ℕ) → m ≤ n → recent w n (filterb (keeps w m) ts) ≡ recent w n ts
unfolding recent filterb
recent-filterb w m n [] h = refl
recent-filterb w m n (t ∷ ts) h = ground (arith, recent-filterb w m n ts)

recent-filterb_self : (w n : ℕ) (ts : List ℕ) → length (filterb (keeps w n) ts) ≡ recent w n ts
unfolding recent filterb
recent-filterb_self w n [] = refl
recent-filterb_self w n (t ∷ ts) = ground (arith, recent-filterb_self w n ts)

pub recent-le : (w n : ℕ) (ts : List ℕ) → recent w n ts ≤ length ts
unfolding recent
recent-le w n [] = omega arith
recent-le w n (t ∷ ts) = ground (arith, recent-le w n ts)

-- In an ascending list all that follows a recent entry is recent.
recent-all : (w n lo : ℕ) (ts : List ℕ) → n < lo + w → Ascends lo ts → recent w n ts ≡ length ts
unfolding recent
recent-all w n lo [] h a = refl
recent-all w n lo (t ∷ ts) h a = ground (arith, recent-all w n t ts)

recent-drop :
    (w n lo size k : ℕ) (ts : List ℕ)
    → length ts ≡ k + size
    → Ascends lo ts
    → min (recent w n (drop k ts)) size ≡ min (recent w n ts) size
unfolding recent
recent-drop w n lo size zero ts e a = refl
recent-drop w n lo size (suc k) [] e a = refl
recent-drop w n lo size (suc k) (t ∷ ts) e a =
    ground (arith, recent-drop w n t size k ts, recent-all w n t ts)

-- The hard limit is not seen by a count up to that limit.
pub recent-limit :
    (w n lo size : ℕ) (ts : List ℕ)
    → Ascends lo ts
    → min (recent w n (limit size ts)) size ≡ min (recent w n ts) size
recent-limit w n lo size ts a = ground (arith, recent-drop w n lo size (length ts - size) ts)

pub length-limit-le : (size : ℕ) (ts : List ℕ) → length (limit size ts) ≤ size
length-limit-le size ts = ground (arith, length-drop (length ts - size) ts)

pub prune-Ascends :
    (p : ℕ → Bool) (lo size : ℕ) (ts : List ℕ)
    → Ascends lo ts
    → Ascends lo (limit size (filterb p ts))
prune-Ascends p lo size ts a =
    let kept = filterb p ts in
    ground (arith, Ascends-filterb p lo ts a, Ascends-drop lo (length kept - size) kept)

pub prune-UpTo :
    (p : ℕ → Bool) (hi size : ℕ) (ts : List ℕ) → UpTo hi ts → UpTo hi (limit size (filterb p ts))
prune-UpTo p hi size ts u =
    let kept = filterb p ts in
    ground (arith, UpTo-filterb p hi ts u, UpTo-drop hi (length kept - size) kept)

-- A prune changes no later count up to the limit.
pub recent-prune :
    (w m n lo size : ℕ) (ts : List ℕ)
    → m ≤ n
    → Ascends lo ts
    → min (recent w n (limit size (filterb (keeps w m) ts))) size ≡ min (recent w n ts) size
recent-prune w m n lo size ts h a =
    recent-limit w n lo size (filterb (keeps w m) ts) (Ascends-filterb (keeps w m) lo ts a)
    ∙ ap (λ c. min c size) (recent-filterb w m n ts h)

-- After a prune the array's length is the count, up to the limit.
pub length-prune :
    (w n lo size : ℕ) (ts : List ℕ)
    → length (limit size (filterb (keeps w n) ts)) ≡ min (recent w n ts) size
length-prune w n lo size ts =
    let kept = filterb (keeps w n) ts in
    ground (arith, recent-filterb_self w n ts, length-drop (length kept - size) kept)
