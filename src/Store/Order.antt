-- ===== src/Store/Order.antt =====
-- The ORDER BY of internal/models/db.go sorts, and what a scan of the sorted rows keeps of them.
use mathlib.Core.List.{Perm}
use mathlib.Core.List.Perm
use vibls_assignment.Common.{
  ◌&&◌, eqb, ◌||◌, ltb, ℕ, zero, suc, ◌≤◌, ◌<◌, ◌≡◌, ◌≢◌, inl, inr, Bool, true, List, [], ◌∷◌,
  arith, Bool-cases, take, drop, keep, All, All-take,
}
use vibls_assignment.Job.{Time}
use vibls_assignment.Store.Rows.{JobRow}
use vibls_assignment.Store.Listing.{insert_desc, order_desc}

module _ (column : JobRow → Time) where
  -- The column falls along the list.
  abbrev pub IsDesc : List JobRow → Type 0
  IsDesc [] = Unit
  IsDesc (r ∷ rs) = All (λ s. column s ≤ column r) rs × IsDesc rs

  All-le_trans :
      (m n : Time) (rs : List JobRow)
      → m ≤ n
      → All (λ s. column s ≤ m) rs
      → All (λ s. column s ≤ n) rs
  All-le_trans m n [] h a = tt
  All-le_trans m n (r ∷ rs) h a = (omega arith, All-le_trans m n rs h a.1)

  -- The column is strictly smaller at each later row, and no two rows agree in it.
  abbrev pub IsFalling : List JobRow → Type 0
  IsFalling [] = Unit
  IsFalling (r ∷ rs) = All (λ s. column s < column r) rs × IsFalling rs

  abbrev pub IsDistinct : List JobRow → Type 0
  IsDistinct [] = Unit
  IsDistinct (r ∷ rs) = All (λ s. column r ≢ column s) rs × IsDistinct rs

  All-lt_trans :
      (m n : Time) (rs : List JobRow)
      → m < n
      → All (λ s. column s < m) rs
      → All (λ s. column s < n) rs
  All-lt_trans m n [] h a = tt
  All-lt_trans m n (r ∷ rs) h a = (omega arith, All-lt_trans m n rs h a.1)

  pub IsDesc-take : (n : ℕ) (rs : List JobRow) → IsDesc rs → IsDesc (take n rs)
  IsDesc-take zero rs d = tt
  IsDesc-take (suc n) [] d = tt
  IsDesc-take (suc n) (r ∷ rs) d =
      (All-take (λ s. column s ≤ column r) n rs d.0, IsDesc-take n rs d.1)

  pub IsDesc-drop : (n : ℕ) (rs : List JobRow) → IsDesc rs → IsDesc (drop n rs)
  IsDesc-drop zero rs d = d
  IsDesc-drop (suc n) [] d = tt
  IsDesc-drop (suc n) (r ∷ rs) d = IsDesc-drop n rs d.1

  module _ (ties : JobRow → JobRow → Bool) where
    All-insert_desc {κ} :
        (P : JobRow → Type κ) (r : JobRow) (rs : List JobRow)
        → P r
        → All P rs
        → All P (insert_desc ties column r rs)
    unfolding insert_desc
    All-insert_desc P r [] h a = (h, tt)
    All-insert_desc P r (s ∷ rs) h (hs, a) =
        elim (Bool-cases (ltb (column s) (column r) || eqb (column s) (column r) && ties r s)) [
          | inl below ↦ rw below (h, (hs, a))
          | inr above ↦ rw above (hs, All-insert_desc P r rs h a)
        ]

    pub All-order_desc {κ} :
        (P : JobRow → Type κ) (rs : List JobRow) → All P rs → All P (order_desc ties column rs)
    unfolding order_desc
    All-order_desc P [] a = tt
    All-order_desc P (r ∷ rs) a = All-insert_desc P r _ a.0 (All-order_desc P rs a.1)

    insert_desc-IsDesc :
        (r : JobRow) (rs : List JobRow) → IsDesc rs → IsDesc (insert_desc ties column r rs)
    unfolding insert_desc
    insert_desc-IsDesc r [] d = (tt, tt)
    insert_desc-IsDesc r (s ∷ rs) d =
        elim (Bool-cases (ltb (column s) (column r) || eqb (column s) (column r) && ties r s)) [
          | inl below ↦
              rw below ((ground arith, All-le_trans (column s) (column r) rs (ground arith) d.0), d)
          | inr above ↦ rw above (
            All-insert_desc (λ k. column k ≤ column s) r rs (ground arith) d.0,
            insert_desc-IsDesc r rs d.1,
          )
        ]

    pub order_desc-IsDesc : (rs : List JobRow) → IsDesc (order_desc ties column rs)
    unfolding order_desc
    order_desc-IsDesc [] = tt
    order_desc-IsDesc (r ∷ rs) = insert_desc-IsDesc r _ (order_desc-IsDesc rs)

    insert_desc-IsFalling :
        (r : JobRow) (rs : List JobRow)
        → All (λ s. column r ≢ column s) rs
        → IsFalling rs
        → IsFalling (insert_desc ties column r rs)
    unfolding insert_desc
    insert_desc-IsFalling r [] apart d = (tt, tt)
    insert_desc-IsFalling r (s ∷ rs) (other, apart) d =
        elim (Bool-cases (ltb (column s) (column r) || eqb (column s) (column r) && ties r s)) [
          | inl below ↦
              let older : column s < column r = ground (arith, below, other) in
              rw below ((older, All-lt_trans (column s) (column r) rs older d.0), d)
          | inr above ↦ rw above (
            All-insert_desc (λ k. column k < column s) r rs (ground arith) d.0,
            insert_desc-IsFalling r rs apart d.1,
          )
        ]

    -- Without ties, ORDER BY leaves no choice.
    pub order_desc-IsFalling :
        (rs : List JobRow) → IsDistinct rs → IsFalling (order_desc ties column rs)
    unfolding order_desc
    order_desc-IsFalling [] apart = tt
    order_desc-IsFalling (r ∷ rs) apart =
        insert_desc-IsFalling r _ (All-order_desc (λ s. column r ≢ column s) rs apart.0)
          (order_desc-IsFalling rs apart.1)

    insert_desc-perm :
        (r : JobRow) (rs : List JobRow) → Perm (insert_desc ties column r rs) (r ∷ rs)
    unfolding insert_desc
    insert_desc-perm r [] = Perm.refl _
    insert_desc-perm r (s ∷ rs) =
        elim (Bool-cases (ltb (column s) (column r) || eqb (column s) (column r) && ties r s)) [
          | inl below ↦ rw below (Perm.refl _)
          | inr above ↦
              rw above (Perm.trans (Perm.cons s (insert_desc-perm r rs)) (Perm.swap r s rs))
        ]

    -- Sorting neither loses nor invents a row.
    pub order_desc-perm : (rs : List JobRow) → Perm (order_desc ties column rs) rs
    unfolding order_desc
    order_desc-perm [] = Perm.refl _
    order_desc-perm (r ∷ rs) =
        Perm.trans (insert_desc-perm r (order_desc ties column rs))
          (Perm.cons r (order_desc-perm rs))

pub All-keep : (test : JobRow → Bool) (rs : List JobRow) → All (λ r. test r ≡ true) (keep test rs)
All-keep test [] = tt
All-keep test (r ∷ rs) = elim (Bool-cases (test r)) [
  | inl passed ↦ rw passed (passed, All-keep test rs)
  | inr failed ↦ rw failed (All-keep test rs)
]
