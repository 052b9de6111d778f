-- ===== src/Fs/Exfat/Chain.antt =====
-- The clusters of a file, one after the other.
use native.Mathlib.Nat.{mul-add-div_right, mul-add-mod_self_right, div-eq_of_lt, mod-eq_of_lt}
use amazing_os.Base.{
  ℕ, zero, suc, ◌+◌, ◌*◌, ◌/◌, ◌%◌, ◌<◌, ◌≡◌, refl, ◌∙◌, sym, false, arith, Bool-cases, inl, inr,
}
use amazing_os.Fs.Exfat.{
  Ahci, Volume, is_end, is_contiguous, get_next_cluster, follow, traverse_clusters, next_cluster,
}

-- The place of byte `j` of cluster `k`.
pub div_at : (k j size : ℕ) → j < size → (k * size + j) / size ≡ k
div_at k j size lt = mul-add-div_right (omega arith) k j ∙ omega (arith, div-eq_of_lt lt)

pub mod_at : (k j size : ℕ) → j < size → (k * size + j) % size ≡ j
mod_at k j size lt = mul-add-mod_self_right k size j ∙ mod-eq_of_lt lt

module _ {D : Type 0} (ahci : Ahci D) (v : Volume) (d : D) where
  follow-suc :
      (n c : ℕ)
      → is_end (follow ahci v (suc n) c d) ≡ false
      → follow ahci v (suc n) c d ≡ get_next_cluster ahci v (follow ahci v n c d) d
  unfolding follow
  follow-suc zero c live = elim (Bool-cases (is_end (get_next_cluster ahci v c d))) [
    | inl over ↦ absurd (ground (arith, live, over))
    | inr on ↦ rw on refl
  ]
  follow-suc (suc n) c live = elim (Bool-cases (is_end (get_next_cluster ahci v c d))) [
    | inl over ↦ absurd (ground (arith, live, over))
    | inr on ↦ rw on (follow-suc n (get_next_cluster ahci v c d) (rw on at live))
  ]

  -- The next cluster of a chain.
  pub next_cluster-traverse_clusters :
      (start flags n : ℕ)
      → is_end (traverse_clusters ahci v start flags (suc n) d) ≡ false
      → next_cluster ahci v flags (traverse_clusters ahci v start flags n d) d
        ≡ traverse_clusters ahci v start flags (suc n) d
  unfolding traverse_clusters next_cluster
  next_cluster-traverse_clusters start flags n live = elim (Bool-cases (is_contiguous flags)) [
    | inl together ↦ rw together (omega arith)
    | inr chained ↦ rw chained (sym (follow-suc n start (rw chained at live)))
  ]
