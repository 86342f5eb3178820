-- ===== src/Mpi/Cartesian.antt =====
-- alsfvm/include/alsfvm/mpi/cartesian: rank_component.hpp, rank_index.hpp, number_of_segments.hpp,
-- displacements.hpp and lengths.hpp. A side is a number below 6, a direction a number below 3.
use alsvinn.Base.{
  ℕ, zero, suc, ◌%◌, List, [], ◌∷◌, Bool, ◌&&◌, ◌||◌, ltb, ◌==◌, if◌then◌else◌, replicate,
}
use alsvinn.Base.Int.{ℤ, pos, negsuc, pos_part, ◌+ℤ◌, ◌-ℤ◌, ◌*ℤ◌, ◌/ℤ◌, ◌%ℤ◌, ltb_ℤ}
use alsvinn.Vec.{Vec3, vec3}

unfoldable pub get_coordinates : ℤ → Vec3 ℤ → Vec3 ℤ
unfolding ◌*ℤ◌ ◌/ℤ◌ ◌%ℤ◌
get_coordinates rank n = vec3 (rank %ℤ n.x) (rank /ℤ n.x %ℤ n.y) (rank /ℤ (n.x *ℤ n.y))

-- A coordinate just outside its range is taken round to the other end.
unfoldable pub wrap : ℤ → ℤ → ℤ
unfolding ◌+ℤ◌ ◌-ℤ◌
wrap c n =
    let up = if ltb_ℤ c (pos 0) then c +ℤ n else c in if ltb_ℤ (n -ℤ pos 1) up then up -ℤ n else up

unfoldable pub get_rank_index : Vec3 ℤ → Vec3 ℤ → ℤ
unfolding wrap ◌+ℤ◌ ◌*ℤ◌
get_rank_index c n = wrap c.x n.x +ℤ wrap c.y n.y *ℤ n.x +ℤ wrap c.z n.z *ℤ n.x *ℤ n.y

unfoldable pub compute_number_of_segments : ℕ → ℕ → Vec3 ℤ → ℤ
unfolding ◌*ℤ◌
compute_number_of_segments side dimensions n =
    if ltb side 2
    then if dimensions == 1 then pos 1 else if dimensions == 2 then n.y else n.y *ℤ n.z
    else if ltb side 4
    then if dimensions == 2 then pos 1 else n.z
    else pos 1

-- The branches of the loop of `computeDisplacements`: the value of `displacements[i]`, which starts
-- as 0, from that of `displacements[i - 1]`, which is read for i > 0 alone. `base` is the base offset
-- with its sign.
add_if : Bool → ℤ → ℤ → ℤ
unfolding ◌+ℤ◌
add_if b d a = if b then d +ℤ a else d

sub_if : Bool → ℤ → ℤ → ℤ
unfolding ◌-ℤ◌
sub_if b d a = if b then d -ℤ a else d

displacement_2d : ℕ → Vec3 ℤ → ℤ → ℤ → ℕ → ℤ → ℤ
unfolding add_if sub_if ◌+ℤ◌ ◌-ℤ◌ ◌*ℤ◌
displacement_2d side n ghosts base i previous =
    if ltb side 2
    then add_if (ltb 0 i)
        (add_if (i == 0)
          (sub_if (i == 0 && side == 1) (if ltb 0 side || ltb 0 i then n.x else pos 0) ghosts) base)
        previous
    else add_if (ltb 2 side) (pos 0 +ℤ base *ℤ n.x) (n.x *ℤ n.y -ℤ n.x *ℤ ghosts)

displacement_3d : ℕ → Vec3 ℤ → ℤ → ℤ → ℕ → ℤ → ℤ
unfolding add_if sub_if ◌+ℤ◌ ◌-ℤ◌ ◌*ℤ◌
displacement_3d side n ghosts base i previous =
    if ltb side 2
    then add_if (ltb 0 i)
        (sub_if (i == 0 && side == 1)
          (add_if (ltb 0 side || ltb 0 i) (add_if (i == 0) (pos 0) base) n.x) ghosts)
        previous
    else if ltb side 4
    then add_if (ltb 0 i)
        (sub_if (i == 0 && side == 3)
          (add_if (ltb 2 side || ltb 0 i) (add_if (i == 0) (pos 0) (base *ℤ n.x)) (n.x *ℤ n.y))
          (ghosts *ℤ n.x))
        previous
    else add_if (side == 5) (pos 0 +ℤ n.x *ℤ n.y *ℤ base)
        (n.x *ℤ n.y *ℤ n.z -ℤ n.x *ℤ n.y *ℤ ghosts)

unfoldable pub displacement_at : ℕ → ℕ → Vec3 ℤ → ℤ → ℤ → ℕ → ℤ → ℤ
unfolding displacement_2d displacement_3d
displacement_at side dimensions n ghosts base i previous =
    if dimensions == 1
    then pos side *ℤ (n.x -ℤ ghosts) +ℤ base
    else if dimensions == 2
    then displacement_2d side n ghosts base i previous
    else displacement_3d side n ghosts base i previous

unfoldable pub displacements_from : ℕ → ℕ → Vec3 ℤ → ℤ → ℤ → ℕ → ℕ → ℤ → List ℤ
unfolding displacement_at
displacements_from side dimensions n ghosts base zero i previous = []
displacements_from side dimensions n ghosts base (suc rounds) i previous =
    let d = displacement_at side dimensions n ghosts base i previous in
    d ∷ displacements_from side dimensions n ghosts base rounds (suc i) d

unfoldable pub compute_displacements : ℕ → ℕ → Vec3 ℤ → ℤ → ℤ → List ℤ
unfolding compute_number_of_segments displacements_from ◌*ℤ◌
compute_displacements side dimensions n ghosts base_offset =
    displacements_from side dimensions n ghosts
      (if side % 2 == 1 then base_offset *ℤ negsuc 0 else base_offset)
      (pos_part (compute_number_of_segments side dimensions n)) 0 (pos 0)

-- The value of every `lengths[i]`
unfoldable pub length_of : ℕ → ℕ → Vec3 ℤ → ℤ → ℤ
unfolding ◌*ℤ◌
length_of side dimensions n ghosts =
    if dimensions == 1
    then ghosts
    else if dimensions == 2
    then if ltb side 2 then ghosts else ghosts *ℤ n.x
    else if ltb side 2
    then ghosts
    else if ltb side 4
    then ghosts *ℤ n.x
    else ghosts *ℤ n.x *ℤ n.y

unfoldable pub compute_lengths : ℕ → ℕ → Vec3 ℤ → ℤ → List ℤ
unfolding compute_number_of_segments length_of
compute_lengths side dimensions n ghosts =
    replicate (pos_part (compute_number_of_segments side dimensions n))
      (length_of side dimensions n ghosts)
