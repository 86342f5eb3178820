-- ===== src/Mpi/Exchange/Datatypes.antt =====
-- The cells of a volume that `createDataTypeSend` and `createDataTypeReceive` of
-- alsfvm/src/mpi/CartesianCellExchanger.cpp cover.
use alsvinn.Base.{
  zero, suc, refl, ◌∙◌, ap, length, replicate, ℕ, ◌+◌, ◌/◌, ◌≤◌, ◌<◌, ◌≡◌, sym, arith, subst,
}
use alsvinn.Base.Int.{ℤ, pos, pos_part, pos-*ℤ-pos}
use alsvinn.Vec.{Vec3, vec3, comp}
use alsvinn.Volume.{
  Volume, get_dimensions, get_number_of_ghost_cells, get_total_dimensions, total_x, total_y,
  total_z,
}
use alsvinn.Mpi.Cartesian.{
  compute_number_of_segments, displacements_from, compute_displacements, compute_lengths,
}
use alsvinn.Mpi.Exchange.Layers.{IsBand, first_layer, side-IsBand}
use alsvinn.Mpi.Exchange.{IndexType, datatype_at, create_data_type_send, create_data_type_receive}

length-displacements_from :
    (side dimensions : ℕ) (n : Vec3 ℤ) (ghosts base : ℤ) (rounds i : ℕ) (previous : ℤ)
    → length (displacements_from side dimensions n ghosts base rounds i previous) ≡ rounds
unfolding displacements_from
length-displacements_from side dimensions n ghosts base zero i previous = refl
length-displacements_from side dimensions n ghosts base (suc rounds) i previous =
    ap suc (length-displacements_from side dimensions n ghosts base rounds (suc i) _)

length-compute_displacements :
    (side dimensions : ℕ) (n : Vec3 ℤ) (ghosts base : ℤ)
    → length (compute_displacements side dimensions n ghosts base)
      ≡ pos_part (compute_number_of_segments side dimensions n)
unfolding compute_displacements
length-compute_displacements side dimensions n ghosts base =
    length-displacements_from side dimensions n ghosts _ _ 0 (pos 0)

length-replicate : (n : ℕ) (a : ℤ) → length (replicate n a) ≡ n
length-replicate zero a = refl
length-replicate (suc n) a = ap suc (length-replicate n a)

-- There are no negative numbers of segments.
segments-pos :
    (side dimensions nx ny nz : ℕ)
    → let count = compute_number_of_segments side dimensions (vec3 (pos nx) (pos ny) (pos nz)) in
      count ≡ pos (pos_part count)
unfolding compute_number_of_segments
segments-pos side dimensions nx ny nz = rw (pos-*ℤ-pos ny nz) (ground arith)

module _ {R : Type 0} (v : Volume R) where
  abbrev pub size_of : Vec3 ℕ
  size_of = vec3 (total_x v) (total_y v) (total_z v)

  abbrev pub ghosts_of : Vec3 ℕ
  ghosts_of = vec3 v.ngx v.ngy v.ngz

  -- A datatype has as many blocks as it has offsets and lengths.
  abbrev HasBlocks : IndexType → Type 0
  HasBlocks t =
      (t.number_of_blocks ≡ pos (length t.offsets)) × (length t.block_lengths ≡ length t.offsets)

  -- A datatype has as many blocks as it has offsets and lengths, and its blocks cover the g layers from
  -- `lo` on along an axis, g being the ghost cells there, and no other cells of the volume.
  unfoldable pub HoldsLayers : IndexType → ℕ → ℕ → Type 0
  HoldsLayers t axis lo =
      HasBlocks t × IsBand size_of t.offsets t.block_lengths axis lo (comp ghosts_of axis)

  room : (axis : ℕ) → comp ghosts_of axis + comp ghosts_of axis ≤ comp size_of axis
  unfolding total_x total_y total_z
  room axis = ground arith

  pos_ghosts : (axis : ℕ) → comp (get_number_of_ghost_cells v) axis ≡ pos (comp ghosts_of axis)
  unfolding get_number_of_ghost_cells
  pos_ghosts axis = grind arith

  datatype_at-HasBlocks : (side : ℕ) (base : ℤ) → HasBlocks (datatype_at side base v)
  unfolding datatype_at get_total_dimensions compute_lengths
  datatype_at-HasBlocks side base =
      let offsets =
        length-compute_displacements side (get_dimensions v) (get_total_dimensions v)
          (comp (get_number_of_ghost_cells v) (side / 2)) base in
      (
        segments-pos side (get_dimensions v) (total_x v) (total_y v) (total_z v)
            ∙ ap pos (sym offsets),
        length-replicate _ _ ∙ sym offsets,
      )

  datatype_at-HoldsLayers :
      (side b : ℕ)
      → get_dimensions v ≡ 3
      → side < 6
      → comp ghosts_of (side / 2) + b ≤ comp size_of (side / 2)
      → HoldsLayers
          (datatype_at side (pos b) v)
          (side / 2)
          (first_layer side (comp size_of (side / 2)) (comp ghosts_of (side / 2)) b)
  unfolding HoldsLayers datatype_at get_total_dimensions
  datatype_at-HoldsLayers side b three h fits = (
    datatype_at-HasBlocks side (pos b),
    rw (pos_ghosts (side / 2), three)
        (side-IsBand (total_x v) (total_y v) (total_z v) (comp ghosts_of (side / 2)) b side h fits),
  )

  -- What is sent begins behind the ghost cells.
  pub send-HoldsLayers :
      (side : ℕ)
      → get_dimensions v ≡ 3
      → side < 6
      → HoldsLayers (create_data_type_send side v) (side / 2) (
          first_layer side
            (comp size_of (side / 2))
            (comp ghosts_of (side / 2))
            (comp ghosts_of (side / 2)))
  unfolding create_data_type_send
  send-HoldsLayers side three h =
      subst
        (λ (base : ℤ). HoldsLayers (datatype_at side base v) (side / 2) (
          first_layer side (comp size_of (side / 2)) (comp ghosts_of (side / 2))
            (comp ghosts_of (side / 2))))
        (sym (pos_ghosts (side / 2)))
        (datatype_at-HoldsLayers side (comp ghosts_of (side / 2)) three h (room (side / 2)))

  -- What is received are the ghost cells.
  pub receive-HoldsLayers :
      (side : ℕ)
      → get_dimensions v ≡ 3
      → side < 6
      → HoldsLayers
          (create_data_type_receive side v)
          (side / 2)
          (first_layer side (comp size_of (side / 2)) (comp ghosts_of (side / 2)) 0)
  unfolding create_data_type_receive
  receive-HoldsLayers side three h =
      datatype_at-HoldsLayers side 0 three h (omega (arith, room (side / 2)))
