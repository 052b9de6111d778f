-- ===== src/Windows/Order.antt =====
-- The walks along the list of windows of kernel/wm.cpp, and what they and the links make of the list.
pub mod Front
use amazing_os.Base.{
  ℕ, zero, suc, ◌+◌, ◌≤◌, ◌<◌, ◌≡◌, ◌≢◌, refl, sym, ap, ◌∙◌, Option, none, some, List, [], ◌∷◌,
  ◌++◌, arith, ◌==◌, ◌||◌, Bool, true, false, if◌then◌else◌, length, All, ≢→==_false,
}
use amazing_os.Base.Chain.{
  Chain, NotIn, Distinct, last, update, update_same, update_other, Chain-frame, All-of,
  update-frame, last_ne,
}
use amazing_os.Windows.{find_tail, find_prev}

-- The walk to the tail ends there.
pub find_tail-last :
    (fuel : ℕ) (f : ℕ → ℕ) (p v : ℕ) (ts : List ℕ)
    → Chain f p (v ∷ ts)
    → length ts < fuel
    → find_tail fuel f p ≡ some (last v ts)
unfolding find_tail
find_tail-last zero f p v ts c h = elim h [ ]
find_tail-last (suc fuel) f p v [] c h = rw (find_tail, c.0, ≢→==_false v 0 c.1.0, c.1.1) refl
find_tail-last (suc fuel) f p v (u ∷ ts) c h =
    rw (find_tail, c.0, ≢→==_false v 0 c.1.0, ≢→==_false (f v) 0 (λ z. c.1.1.1.0 (sym c.1.1.0 ∙ z)))
      (find_tail-last fuel f (f v) u ts c.1.1 (omega arith))

pub find_tail-nil : (fuel : ℕ) (f : ℕ → ℕ) (p : ℕ) → p ≡ 0 → find_tail (suc fuel) f p ≡ some 0
unfolding find_tail
find_tail-nil fuel f p e = rw (find_tail, e) refl

pub last_nonzero :
    (f : ℕ → ℕ) (p v : ℕ) (ts post : List ℕ) → Chain f p ((v ∷ ts) ++ post) → last v ts ≢ 0
last_nonzero f p v [] post c = c.1.0
last_nonzero f p v (u ∷ ts) post c = last_nonzero f (f v) u ts post c.1.1

-- The walk to the predecessor of a member stops in front of it.
pub find_prev-last :
    (fuel : ℕ) (f : ℕ → ℕ) (p win u : ℕ) (us post : List ℕ)
    → Chain f p ((u ∷ us) ++ win ∷ post)
    → NotIn win us
    → length us < fuel
    → find_prev fuel f p win ≡ some (last u us)
unfolding find_prev
find_prev-last zero f p win u us post c new h = elim h [ ]
find_prev-last (suc fuel) f p win u [] post c new h =
    rw (find_prev, c.0, ≢→==_false u 0 c.1.0, c.1.1.0, ==_refl win) refl
  where
    ==_refl : (a : ℕ) → (a == a) ≡ true
    ==_refl a = ground arith
find_prev-last (suc fuel) f p win u (v ∷ us) post c new h =
    rw (find_prev, c.0, ≢→==_false u 0 c.1.0, ≢→==_false (f u) win (λ z. new.0 (sym c.1.1.0 ∙ z)))
      (find_prev-last fuel f (f u) win v us post c.1.1 new.1 (omega arith))

pub NotIn-left : (a : ℕ) (xs ys : List ℕ) → NotIn a (xs ++ ys) → NotIn a xs
NotIn-left a [] ys h = tt
NotIn-left a (x ∷ xs) ys h = (h.0, NotIn-left a xs ys h.1)

-- The link of the predecessor goes past the member.
pub Chain-remove :
    (f : ℕ → ℕ) (p win u : ℕ) (us post : List ℕ)
    → Chain f p ((u ∷ us) ++ win ∷ post)
    → Distinct ((u ∷ us) ++ win ∷ post)
    → Chain (update f (last u us) (f win)) p ((u ∷ us) ++ post)
Chain-remove f p win u [] post c d = (
  c.0,
  (
    c.1.0,
    rw (update_same f u (f win)) (
        Chain-frame f (update f u (f win)) (f win) post (update-frame f u (f win) post d.0.1)
          c.1.1.1.1),
  ),
)
Chain-remove f p win u (v ∷ us) post c d =
    let ne = last_ne u v us (NotIn-left u (v ∷ us) (win ∷ post) d.0) in
    (
      c.0,
      (
        c.1.0,
        rw (update_other f (last v us) (f win) u (λ e. ne (sym e)))
            (Chain-remove f (f u) win v us post c.1.1 d.1),
      ),
    )

NotIn-both : (a : ℕ) (xs ys : List ℕ) → NotIn a xs → NotIn a ys → NotIn a (xs ++ ys)
NotIn-both a [] ys h k = k
NotIn-both a (x ∷ xs) ys h k = (h.0, NotIn-both a xs ys h.1 k)

pub NotIn-right : (a : ℕ) (xs ys : List ℕ) → NotIn a (xs ++ ys) → NotIn a ys
NotIn-right a [] ys h = h
NotIn-right a (x ∷ xs) ys h = NotIn-right a xs ys h.1

-- The others are distinct, and the member is none of them.
pub Distinct-remove :
    (win : ℕ) (xs ys : List ℕ)
    → Distinct (xs ++ win ∷ ys)
    → Distinct (xs ++ ys) × NotIn win (xs ++ ys)
Distinct-remove win [] ys d = (d.1, d.0)
Distinct-remove win (x ∷ xs) ys d =
    let r = Distinct-remove win xs ys d.1 in
    let k = NotIn-right x xs (win ∷ ys) d.0 in
    ((NotIn-both x xs ys (NotIn-left x xs (win ∷ ys) d.0) k.1, r.0), ((λ e. k.0 (sym e)), r.1))
