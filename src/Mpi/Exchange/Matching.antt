-- ===== src/Mpi/Exchange/Matching.antt =====
-- The requests of two neighbouring processes (alsfvm/src/mpi/CartesianCellExchanger.cpp).
use alsvinn.Base.{
  ℕ, zero, suc, ◌+◌, ◌*◌, ◌/◌, ◌≤◌, ◌<◌, ◌≡◌, sym, ap, arith, List, [], ◌∷◌, ◌++◌, ◌∈◌, ◌⊎◌, inl,
  inr, Bool, true, subst,
}
use alsvinn.Base.Int.{ℤ, pos}
use alsvinn.Vec.{comp, Vec6, comp6}
use alsvinn.Volume.{Volume, get_dimensions, get_number_of_variables}
use alsvinn.Mpi.Exchange.Layers.{first_layer}
use alsvinn.Mpi.Exchange.{
  Request, isend, ireceive, has_side, only, opposite_side, requests_at, requests_of_side,
  requests_from, exchange_cells, create_data_type_send, create_data_type_receive,
}
use alsvinn.Mpi.Exchange.Datatypes.{
  size_of, ghosts_of, HoldsLayers, send-HoldsLayers, receive-HoldsLayers,
}

in_left : {A : Type 0} (a : A) (xs ys : List A) → a ∈ xs → a ∈ (xs ++ ys)
in_left a [] ys h = elim h [ ]
in_left a (x ∷ xs) ys (inl e) = inl e
in_left a (x ∷ xs) ys (inr h) = inr (in_left a xs ys h)

in_right : {A : Type 0} (a : A) (xs ys : List A) → a ∈ ys → a ∈ (xs ++ ys)
in_right a [] ys h = h
in_right a (x ∷ xs) ys h = inr (in_right a xs ys h)

eq_or_lt : (a b : ℕ) → a ≤ b → (a ≡ b) ⊎ (suc a ≤ b)
eq_or_lt a b h = ground arith

in_only : (b : Bool) (a a' : Request) → b ≡ true → a ≡ a' → a ∈ only b a'
unfolding only
in_only b a a' h e = rw h (inl e)

has_side_lem : (v : Vec6 ℤ) (side p : ℕ) → comp6 v side ≡ pos p → has_side v side ≡ true
unfolding has_side
has_side_lem v side p e = rw e (ground arith)

module _ {R : Type 0} (neighbours : Vec6 ℤ) (v : Volume R) (a : Request) where
  in_side :
      (side rounds from variable : ℕ)
      → from ≤ variable
      → variable < from + rounds
      → a ∈ requests_at neighbours v side variable
      → a ∈ requests_of_side neighbours v side rounds from
  unfolding requests_of_side
  in_side side zero from variable lo hi h = absurd (omega arith)
  in_side side (suc rounds) from variable lo hi h = elim (eq_or_lt from variable lo) [
    | inl e ↦
        in_left a (requests_at neighbours v side from) _
          (subst (λ (t : ℕ). a ∈ requests_at neighbours v side t) (sym e) h)
    | inr lt ↦
        in_right a (requests_at neighbours v side from) _
          (in_side side rounds (suc from) variable lt (omega arith) h)
  ]

  in_sides :
      (variables rounds from side variable : ℕ)
      → from ≤ side
      → side < from + rounds
      → variable < variables
      → a ∈ requests_at neighbours v side variable
      → a ∈ requests_from neighbours v variables rounds from
  unfolding requests_from
  in_sides variables zero from side variable lo hi small h = absurd (omega arith)
  in_sides variables (suc rounds) from side variable lo hi small h = elim (eq_or_lt from side lo) [
    | inl e ↦ in_left a (requests_of_side neighbours v from variables 0) _ (
        in_side from variables 0 variable (omega arith) (omega arith)
          (subst (λ (t : ℕ). a ∈ requests_at neighbours v t variable) (sym e) h))
    | inr lt ↦
        in_right a (requests_of_side neighbours v from variables 0) _
          (in_sides variables rounds (suc from) side variable lt (omega arith) small h)
  ]

module _ {R : Type 0} (nb : Vec6 ℤ) (v : Volume R) (side variable p : ℕ) where
  sends :
      comp6 nb side ≡ pos p
      → isend variable (create_data_type_send side v) (pos p) (side + variable * 6)
        ∈ requests_at nb v side variable
  unfolding requests_at
  sends e = in_left _ _ _ (
      in_only (has_side nb side) _ _ (has_side_lem nb side p e) (
        ap (λ (t : ℤ). isend variable (create_data_type_send side v) t (side + variable * 6))
          (sym e)))

  receives :
      comp6 nb (opposite_side side) ≡ pos p
      → ireceive variable
          (create_data_type_receive (opposite_side side) v)
          (pos p)
          (side + variable * 6)
        ∈ requests_at nb v side variable
  unfolding requests_at
  receives e = in_right _ (only (has_side nb side) _) _ (
      in_only (has_side nb (opposite_side side)) _ _ (has_side_lem nb (opposite_side side) p e) (
        ap
          (λ (t : ℤ).
            ireceive variable (create_data_type_receive (opposite_side side) v) t
              (side + variable * 6))
          (sym e)))

opposite_small : (side : ℕ) → side < 6 → opposite_side side < 6
unfolding opposite_side
opposite_small side h = omega arith

opposite-half : (side : ℕ) → opposite_side side / 2 ≡ side / 2
unfolding opposite_side
opposite-half side = omega arith

module _ {R : Type 0} (here there : Vec6 ℤ) (v input : Volume R) (side variable p q : ℕ) where
  -- In three dimensions, if process q is the neighbour of process p on a side, and p that of q on
  -- the opposite side, then for each variable p sends q a datatype, and q receives one from p with
  -- the same tag. With g ghost layers in the direction of the side, the one that is sent covers the
  -- g layers behind the ghost cells of that side, and the one that is received the g layers of
  -- ghost cells of the opposite side, and neither any other cell of the volume. Each has as many
  -- blocks as it has offsets and lengths.
  pub exchange_cells-matched :
      comp6 here side ≡ pos q
      → comp6 there (opposite_side side) ≡ pos p
      → get_dimensions v ≡ 3
      → side < 6
      → variable < get_number_of_variables input
      → let tag = side + variable * 6 in
        let axis = side / 2 in
        let extent = comp (size_of v) axis in
        let g = comp (ghosts_of v) axis in
        (isend variable (create_data_type_send side v) (pos q) tag ∈ exchange_cells here v input)
        × (ireceive variable (create_data_type_receive (opposite_side side) v) (pos p) tag
            ∈ exchange_cells there v input)
        × HoldsLayers v (create_data_type_send side v) axis (first_layer side extent g g)
        × HoldsLayers v
            (create_data_type_receive (opposite_side side) v)
            axis
            (first_layer (opposite_side side) extent g 0)
  unfolding exchange_cells
  exchange_cells-matched eq ep three hs hv =
      let small : side < 0 + 2 * get_dimensions v = rw three (omega arith) in
      (
        in_sides here v _ (get_number_of_variables input) (2 * get_dimensions v) 0 side variable
            (omega arith) small hv (sends here v side variable q eq),
        in_sides there v _ (get_number_of_variables input) (2 * get_dimensions v) 0 side variable
            (omega arith) small hv (receives there v side variable p ep),
        send-HoldsLayers v side three hs,
        subst
            (λ (axis : ℕ). HoldsLayers v (create_data_type_receive (opposite_side side) v) axis (
              first_layer (opposite_side side) (comp (size_of v) axis) (comp (ghosts_of v) axis) 0))
            (opposite-half side)
            (receive-HoldsLayers v (opposite_side side) three (opposite_small side hs)),
      )
