-- ===== src/Windows/Order/Front.antt =====
-- `bring_to_front` of kernel/wm.cpp on the list of windows.
use mathlib.Core.List.{append-nil}
use amazing_os.Base.{
  ℕ, zero, suc, ◌≤◌, ◌<◌, ◌≡◌, ◌≢◌, refl, sym, ap, ◌∙◌, some, List, [], ◌∷◌, ◌++◌, arith, ◌==◌,
  Bool, true, false, if◌then◌else◌, length, length-append, ≢→==_false,
}
use amazing_os.Base.Chain.{
  Chain, NotIn, Distinct, last, update, update_same, Chain-frame, All-of, update-frame, last_ne,
  Chain-append, Distinct-append,
}
use amazing_os.Windows.{Window, WindowManager, links, set_next, link_last, bring_to_front}
use amazing_os.Windows.Order.{
  find_tail-last, find_tail-nil, last_nonzero, find_prev-last, Chain-remove, NotIn-left,
  Distinct-remove,
}

-- The windows in their order, the one in front at the end.
pub record IsOrder (s : WindowManager) (ts : List ℕ) : Type 0 where
  pub chain : Chain (links s) s.window_list_head ts
  pub distinct : Distinct ts

if-next : (b : Bool) (v w : Window) → (if b then v else w).next ≡ (if b then v.next else w.next)
if-next true v w = refl
if-next false v w = refl

links-set_next :
    (t n : ℕ) (s : WindowManager) (a : ℕ) → links (set_next t n s) a ≡ update (links s) t n a
links-set_next t n s a = if-next (a == t) (record (s.windows t) { next = n }) (s.windows a)

-- The two links that a window at the end needs, in either order.
links-twice :
    (tail win : ℕ) (s : WindowManager) (a : ℕ)
    → tail ≢ win
    → update (update (links s) win 0) tail win a ≡ links (set_next win 0 (set_next tail win s)) a
links-twice tail win s a ne =
    swap (links s) tail win a ne
    ∙ sym (
        links-set_next win 0 (set_next tail win s) a
        ∙ ap (λ (x : ℕ). if a == win then 0 else x) (links-set_next tail win s a))
  where
    swap :
        (f : ℕ → ℕ) (tail win a : ℕ)
        → tail ≢ win
        → update (update f win 0) tail win a ≡ update (update f tail win) win 0 a
    swap f tail win a ne = ground arith

-- A window that is in no link of the list is linked behind it.
link_last-IsOrder :
    (fuel win : ℕ) (s : WindowManager) (ts : List ℕ)
    → IsOrder s ts
    → win ≢ 0
    → NotIn win ts
    → length ts < fuel
    → (out : WindowManager) × (link_last fuel win s ≡ some out) × IsOrder out (ts ++ win ∷ [])
unfolding link_last
link_last-IsOrder zero win s ts o nz new h = elim h [ ]
link_last-IsOrder (suc fuel) win s [] o nz new h = (
  set_next win 0 (record s { window_list_head = win }),
  rw (link_last, find_tail-nil fuel (links s) s.window_list_head o.chain) refl,
  record {
    chain = (
      refl,
      (
        nz,
        links-set_next win 0 (record s { window_list_head = win }) win
            ∙ update_same (links s) win 0,
      ),
    );
    distinct = (tt, tt);
  },
)
link_last-IsOrder (suc fuel) win s (v ∷ ts) o nz new h =
    let at = find_tail-last (suc fuel) (links s) s.window_list_head v ts o.chain (omega arith) in
    let ne = last_ne win v ts new in
    (
      set_next win 0 (set_next (last v ts) win s),
      rw
          (
            link_last,
            at,
            ≢→==_false (last v ts) 0
                (last_nonzero (links s) s.window_list_head v ts [] (rw (append-nil ts) o.chain)),
          )
          refl,
      record {
        chain =
            Chain-frame (update (update (links s) win 0) (last v ts) win) _ s.window_list_head
              ((v ∷ ts) ++ win ∷ [])
              (All-of ((v ∷ ts) ++ win ∷ []) (λ a. links-twice (last v ts) win s a ne))
              (Chain-append (update (links s) win 0) s.window_list_head win v ts
                (Chain-frame (links s) (update (links s) win 0) s.window_list_head (v ∷ ts)
                  (update-frame (links s) win 0 (v ∷ ts) new) o.chain)
                o.distinct nz new (update_same (links s) win 0));
        distinct = Distinct-append win (v ∷ ts) o.distinct new;
      },
    )

==_refl : (a : ℕ) → (a == a) ≡ true
==_refl a = ground arith

member_nonzero :
    (f : ℕ → ℕ) (p win : ℕ) (pre post : List ℕ) → Chain f p (pre ++ win ∷ post) → win ≢ 0
member_nonzero f p win [] post c = c.1.0
member_nonzero f p win (u ∷ pre) post c = member_nonzero f (f u) win pre post c.1.1

-- A window behind another one is taken out of the list, and linked at its end.
bring_to_front-inner :
    (fuel win : ℕ) (s : WindowManager) (u : ℕ) (us post : List ℕ)
    → IsOrder s ((u ∷ us) ++ win ∷ post)
    → NotIn win ((u ∷ us) ++ post)
    → length us < fuel
    → bring_to_front fuel win s ≡ link_last fuel win (set_next (last u us) (links s win) s)
unfolding bring_to_front
bring_to_front-inner fuel win s u us post o new h =
    rw
      (
        bring_to_front,
        ≢→==_false win 0 (member_nonzero (links s) s.window_list_head win (u ∷ us) post o.chain),
        ≢→==_false s.window_list_head 0 (λ z. o.chain.1.0 (sym o.chain.0 ∙ z)),
        ≢→==_false win s.window_list_head (λ e. new.0 (sym (e ∙ o.chain.0))),
        find_prev-last fuel (links s) s.window_list_head win u us post o.chain
            (NotIn-left win us post new.1) h,
        ≢→==_false (last u us) 0
            (last_nonzero (links s) s.window_list_head u us (win ∷ post) o.chain),
      )
      refl

-- Where the list of windows holds a window at some place, `bring_to_front`, with fuel for as many steps
-- as there are windows, ends, and the list then holds it at the end, in front of the others, which
-- stay in their order.
pub bring_to_front-IsOrder :
    (fuel win : ℕ) (s : WindowManager) (pre post : List ℕ)
    → IsOrder s (pre ++ win ∷ post)
    → length (pre ++ win ∷ post) ≤ fuel
    → (out : WindowManager) × (bring_to_front fuel win s ≡ some out)
      × IsOrder out ((pre ++ post) ++ win ∷ [])
unfolding bring_to_front
bring_to_front-IsOrder fuel win s [] [] o h = (
  s,
  rw
      (
        bring_to_front,
        ≢→==_false win 0 o.chain.1.0,
        o.chain.0,
        ≢→==_false win 0 o.chain.1.0,
        o.chain.1.1,
        ==_refl win,
      )
      refl,
  o,
)
bring_to_front-IsOrder fuel win s [] (u ∷ us) o h =
    let nz = o.chain.1.0 in
    let rest : WindowManager = record s { window_list_head = links s win } in
    let out =
      link_last-IsOrder fuel win rest (u ∷ us)
        (record { chain = o.chain.1.1; distinct = o.distinct.1 }) nz o.distinct.0 h in
    (
      out.0,
      rw
          (
            bring_to_front,
            ≢→==_false win 0 nz,
            o.chain.0,
            ≢→==_false win 0 nz,
            ==_refl win,
            ≢→==_false (links s win) 0 (λ z. o.chain.1.1.1.0 (sym o.chain.1.1.0 ∙ z)),
          )
          out.1,
      out.2,
    )
bring_to_front-IsOrder fuel win s (u ∷ us) post o h =
    let parts = Distinct-remove win (u ∷ us) post o.distinct in
    let size = length-append (u ∷ us) (win ∷ post) in
    let size' = length-append (u ∷ us) post in
    let out =
      link_last-IsOrder fuel win (set_next (last u us) (links s win) s) ((u ∷ us) ++ post)
        (record {
          chain =
              Chain-frame (update (links s) (last u us) (links s win)) _ s.window_list_head
                ((u ∷ us) ++ post)
                (All-of ((u ∷ us) ++ post)
                  (λ a. sym (links-set_next (last u us) (links s win) s a)))
                (Chain-remove (links s) s.window_list_head win u us post o.chain o.distinct);
          distinct = parts.0;
        })
        (member_nonzero (links s) s.window_list_head win (u ∷ us) post o.chain) parts.1
        (omega arith) in
    (out.0, bring_to_front-inner fuel win s u us post o parts.1 (omega arith) ∙ out.1, out.2)
