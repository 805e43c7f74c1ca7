-- ===== src/Akm/Layout.antt =====
-- The layouts of libs/libakm/oss/akfs_device.c: `AKFS_Rotate` and `AKFS_RotateMat`.
use akm_dash.Common.{◌≡◌, refl, ℤ, pos, negsuc, List, [], ◌∷◌}
use akm_dash.Akm.{
  Vec, Arith, success, PatNo, pat_invalid, pat1, pat2, pat3, pat4, pat5, pat6, pat7, pat8, rotate,
  rotate_mat, row_product,
}

-- The matrix of a layout, and the layout that turns back.
abbrev pub layout_of : PatNo → List (List ℤ)
layout_of pat_invalid = []
layout_of pat1 =
    (pos 1 ∷ pos 0 ∷ pos 0 ∷ []) ∷ (pos 0 ∷ pos 1 ∷ pos 0 ∷ []) ∷ (pos 0 ∷ pos 0 ∷ pos 1 ∷ []) ∷ []
layout_of pat2 =
    (pos 0 ∷ pos 1 ∷ pos 0 ∷ [])
    ∷ (negsuc 0 ∷ pos 0 ∷ pos 0 ∷ [])
    ∷ (pos 0 ∷ pos 0 ∷ pos 1 ∷ [])
    ∷ []
layout_of pat3 =
    (negsuc 0 ∷ pos 0 ∷ pos 0 ∷ [])
    ∷ (pos 0 ∷ negsuc 0 ∷ pos 0 ∷ [])
    ∷ (pos 0 ∷ pos 0 ∷ pos 1 ∷ [])
    ∷ []
layout_of pat4 =
    (pos 0 ∷ negsuc 0 ∷ pos 0 ∷ [])
    ∷ (pos 1 ∷ pos 0 ∷ pos 0 ∷ [])
    ∷ (pos 0 ∷ pos 0 ∷ pos 1 ∷ [])
    ∷ []
layout_of pat5 =
    (negsuc 0 ∷ pos 0 ∷ pos 0 ∷ [])
    ∷ (pos 0 ∷ pos 1 ∷ pos 0 ∷ [])
    ∷ (pos 0 ∷ pos 0 ∷ negsuc 0 ∷ [])
    ∷ []
layout_of pat6 =
    (pos 0 ∷ pos 1 ∷ pos 0 ∷ [])
    ∷ (pos 1 ∷ pos 0 ∷ pos 0 ∷ [])
    ∷ (pos 0 ∷ pos 0 ∷ negsuc 0 ∷ [])
    ∷ []
layout_of pat7 =
    (pos 1 ∷ pos 0 ∷ pos 0 ∷ [])
    ∷ (pos 0 ∷ negsuc 0 ∷ pos 0 ∷ [])
    ∷ (pos 0 ∷ pos 0 ∷ negsuc 0 ∷ [])
    ∷ []
layout_of pat8 =
    (pos 0 ∷ negsuc 0 ∷ pos 0 ∷ [])
    ∷ (negsuc 0 ∷ pos 0 ∷ pos 0 ∷ [])
    ∷ (pos 0 ∷ pos 0 ∷ negsuc 0 ∷ [])
    ∷ []

abbrev pub back : PatNo → PatNo
back pat_invalid = pat_invalid
back pat1 = pat1
back pat2 = pat4
back pat3 = pat3
back pat4 = pat2
back pat5 = pat5
back pat6 = pat6
back pat7 = pat7
back pat8 = pat8

-- What an exact arithmetic does with 1, -1 and 0.
pub record IsExact {N : Type 0} (a : Arith N) : Type 0 where
  pub one_times : (p : N) → a.times (a.of_int (pos 1)) p ≡ p
  pub minus_times : (p : N) → a.times (a.of_int (negsuc 0)) p ≡ a.negated p
  pub zero_times : (p : N) → a.times (a.of_int (pos 0)) p ≡ a.of_int (pos 0)
  pub plus_zero : (p : N) → a.plus p (a.of_int (pos 0)) ≡ p
  pub zero_plus : (p : N) → a.plus (a.of_int (pos 0)) p ≡ p
  pub twice : (p : N) → a.negated (a.negated p) ≡ p

module _ {N : Type 0} {a : Arith N} (e : IsExact a) where
  x_kept : (v : Vec N) → row_product a (pos 1 ∷ pos 0 ∷ pos 0 ∷ []) v ≡ v.x
  unfolding row_product
  x_kept v =
      rw
        (
          row_product,
          e.one_times v.x,
          e.zero_times v.y,
          e.zero_times v.z,
          e.plus_zero v.x,
          e.plus_zero v.x,
        )
        refl

  x_turned : (v : Vec N) → row_product a (negsuc 0 ∷ pos 0 ∷ pos 0 ∷ []) v ≡ a.negated v.x
  unfolding row_product
  x_turned v =
      rw
        (
          row_product,
          e.minus_times v.x,
          e.zero_times v.y,
          e.zero_times v.z,
          e.plus_zero (a.negated v.x),
          e.plus_zero (a.negated v.x),
        )
        refl

  y_kept : (v : Vec N) → row_product a (pos 0 ∷ pos 1 ∷ pos 0 ∷ []) v ≡ v.y
  unfolding row_product
  y_kept v =
      rw
        (
          row_product,
          e.zero_times v.x,
          e.one_times v.y,
          e.zero_times v.z,
          e.zero_plus v.y,
          e.plus_zero v.y,
        )
        refl

  y_turned : (v : Vec N) → row_product a (pos 0 ∷ negsuc 0 ∷ pos 0 ∷ []) v ≡ a.negated v.y
  unfolding row_product
  y_turned v =
      rw
        (
          row_product,
          e.zero_times v.x,
          e.minus_times v.y,
          e.zero_times v.z,
          e.zero_plus (a.negated v.y),
          e.plus_zero (a.negated v.y),
        )
        refl

  z_kept : (v : Vec N) → row_product a (pos 0 ∷ pos 0 ∷ pos 1 ∷ []) v ≡ v.z
  unfolding row_product
  z_kept v =
      rw
        (
          row_product,
          e.zero_times v.x,
          e.zero_times v.y,
          e.one_times v.z,
          e.zero_plus (a.of_int (pos 0)),
          e.zero_plus v.z,
        )
        refl

  z_turned : (v : Vec N) → row_product a (pos 0 ∷ pos 0 ∷ negsuc 0 ∷ []) v ≡ a.negated v.z
  unfolding row_product
  z_turned v =
      rw
        (
          row_product,
          e.zero_times v.x,
          e.zero_times v.y,
          e.minus_times v.z,
          e.zero_plus (a.of_int (pos 0)),
          e.zero_plus (a.negated v.z),
        )
        refl

  -- With an exact arithmetic, `AKFS_Rotate` for each of the eight layouts does what
  -- `AKFS_RotateMat` does with the matrix of the layout, and another of the eight layouts turns the
  -- result back into the vector.
  pub rotate-rotate_mat :
      (p : PatNo) (v : Vec N)
      → (rotate a p v).0 ≡ success
      → let v' = (rotate a p v).1 in
        (rotate_mat a (layout_of p) v ≡ (success, v')) × (rotate a (back p) v' ≡ (success, v))
  unfolding rotate rotate_mat
  rotate-rotate_mat pat_invalid v h = cc
  rotate-rotate_mat pat1 v h = (rw (x_kept v, y_kept v, z_kept v) refl, refl)
  rotate-rotate_mat pat2 v h = (rw (y_kept v, x_turned v, z_kept v) refl, rw (e.twice v.x) refl)
  rotate-rotate_mat pat3 v h =
      (rw (x_turned v, y_turned v, z_kept v) refl, rw (e.twice v.x, e.twice v.y) refl)
  rotate-rotate_mat pat4 v h = (rw (y_turned v, x_kept v, z_kept v) refl, rw (e.twice v.y) refl)
  rotate-rotate_mat pat5 v h =
      (rw (x_turned v, y_kept v, z_turned v) refl, rw (e.twice v.x, e.twice v.z) refl)
  rotate-rotate_mat pat6 v h = (rw (y_kept v, x_kept v, z_turned v) refl, rw (e.twice v.z) refl)
  rotate-rotate_mat pat7 v h =
      (rw (x_kept v, y_turned v, z_turned v) refl, rw (e.twice v.y, e.twice v.z) refl)
  rotate-rotate_mat pat8 v h = (
    rw (y_turned v, x_turned v, z_turned v) refl,
    rw (e.twice v.x, e.twice v.y, e.twice v.z) refl,
  )
