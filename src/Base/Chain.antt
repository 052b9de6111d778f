-- ===== src/Base/Chain.antt =====
-- Singly linked lists: the links as a function, the addresses they go through as a list.
use amazing_os.Base.{
  ℕ, ◌≡◌, refl, ◌∙◌, sym, ◌≢◌, List, [], ◌∷◌, ◌++◌, arith, ◌==◌, if◌then◌else◌, All, ≢→==_false,
}

-- What the links lead to from `p` on.
abbrev pub Chain : (ℕ → ℕ) → ℕ → List ℕ → Type 0
Chain f p [] = p ≡ 0
Chain f p (t ∷ ts) = (p ≡ t) × ((t ≢ 0) × Chain f (f t) ts)

abbrev pub NotIn : ℕ → List ℕ → Type 0
NotIn a ts = All (λ t. t ≢ a) ts

abbrev pub Distinct : List ℕ → Type 0
Distinct [] = Unit {0}
Distinct (t ∷ ts) = NotIn t ts × Distinct ts

abbrev pub last : ℕ → List ℕ → ℕ
last d [] = d
last d (t ∷ ts) = last t ts

abbrev pub update : (ℕ → ℕ) → ℕ → ℕ → ℕ → ℕ
update f t n a = if a == t then n else f a

pub update_same : (f : ℕ → ℕ) (t n : ℕ) → update f t n t ≡ n
update_same f t n = ground arith

pub update_other : (f : ℕ → ℕ) (t n a : ℕ) → a ≢ t → update f t n a ≡ f a
update_other f t n a h = ground arith

-- A chain depends on the links of its own members only.
pub Chain-frame :
    (f g : ℕ → ℕ) (p : ℕ) (ts : List ℕ) → All (λ t. f t ≡ g t) ts → Chain f p ts → Chain g p ts
Chain-frame f g p [] same c = c
Chain-frame f g p (t ∷ ts) same c =
    (c.0, (c.1.0, Chain-frame f g (g t) ts same.1 (rw same.0 at c.1.1)))

pub All-of : {P : ℕ → Type 0} (ts : List ℕ) → ((a : ℕ) → P a) → All P ts
All-of [] h = tt
All-of (t ∷ ts) h = (h t, All-of ts h)

pub update-frame :
    (f : ℕ → ℕ) (t n : ℕ) (ts : List ℕ) → NotIn t ts → All (λ u. f u ≡ update f t n u) ts
update-frame f t n [] h = tt
update-frame f t n (u ∷ ts) h = (sym (update_other f t n u h.0), update-frame f t n ts h.1)

pub last_ne : (a u : ℕ) (ts : List ℕ) → NotIn a (u ∷ ts) → last u ts ≢ a
last_ne a u [] h = h.0
last_ne a u (v ∷ ts) h = last_ne a v ts h.1

-- The last link of a chain is set to a new member.
pub Chain-append :
    (f : ℕ → ℕ) (p t u : ℕ) (ts : List ℕ)
    → Chain f p (u ∷ ts)
    → Distinct (u ∷ ts)
    → t ≢ 0
    → NotIn t (u ∷ ts)
    → f t ≡ 0
    → Chain (update f (last u ts) t) p ((u ∷ ts) ++ t ∷ [])
Chain-append f p t u [] c dis nz new end =
    (c.0, (c.1.0, (update_same f u t, (nz, update_other f u t t (λ e. new.0 (sym e)) ∙ end))))
Chain-append f p t u (v ∷ ts) c dis nz new end =
    let same : update f (last v ts) t u ≡ f u =
      update_other f (last v ts) t u (λ e. last_ne u v ts dis.0 (sym e)) in
    (c.0, (c.1.0, rw same (Chain-append f (f u) t v ts c.1.1 dis.1 nz new.1 end)))

pub last-append : (d t : ℕ) (ts : List ℕ) → last d (ts ++ t ∷ []) ≡ t
last-append d t [] = refl
last-append d t (u ∷ ts) = last-append u t ts

pub NotIn-append : (a t : ℕ) (ts : List ℕ) → NotIn a ts → t ≢ a → NotIn a (ts ++ t ∷ [])
NotIn-append a t [] h k = (k, tt)
NotIn-append a t (u ∷ ts) h k = (h.0, NotIn-append a t ts h.1 k)

pub Distinct-append : (t : ℕ) (ts : List ℕ) → Distinct ts → NotIn t ts → Distinct (ts ++ t ∷ [])
Distinct-append t [] d h = (tt, tt)
Distinct-append t (u ∷ ts) d h =
    (NotIn-append u t ts d.0 (λ e. h.0 (sym e)), Distinct-append t ts d.1 h.1)

pub NotIn-frame :
    (f g : ℕ → ℕ) (p q : ℕ) (ts : List ℕ)
    → NotIn p ts
    → NotIn q ts
    → ((a : ℕ) → a ≢ p → a ≢ q → f a ≡ g a)
    → All (λ a. f a ≡ g a) ts
NotIn-frame f g p q [] h k same = tt
NotIn-frame f g p q (t ∷ ts) h k same = (same t h.0 k.0, NotIn-frame f g p q ts h.1 k.1 same)

pub tail_after :
    (f : ℕ → ℕ) (prev t tail : ℕ) (ts : List ℕ)
    → Chain f (f t) ts
    → tail ≡ last t ts
    → (if f t == 0 then prev else tail) ≡ last prev ts
tail_after f prev t tail [] c e = ground arith
tail_after f prev t tail (v ∷ ts) c e = rw (≢→==_false (f t) 0 (λ z. c.1.0 (sym c.0 ∙ z))) e
