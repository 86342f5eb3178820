-- ===== src/Tests/Processes.antt =====
-- Sixteen cells on four processes, and the samples of an ensemble.
use alsvinn.Base.{
  undefined, ℕ, ◌+◌, ◌*◌, ◌<◌, ◌≡◌, refl, arith, List, [], ◌∷◌, length, get_elem?, some, ok, err,
  Gives, true, false, ◌∈◌,
}
use alsvinn.Base.Int.{ℤ, pos}
use alsvinn.Base.Real.{int_real}
use alsvinn.Vec.{Vec3, vec3, map3, Vec6, comp6, all6}
use alsvinn.Grid.{Grid, periodic, get_boundary_condition}
use alsvinn.Volume.{Volume, total_x, get_dimensions, get_number_of_variables}
use alsvinn.Mpi.Cartesian.{get_coordinates, get_rank_index}
use alsvinn.Mpi.Ranks.{rank-coordinates}
use alsvinn.Mpi.Segments.{IsLayer, compute_displacements-IsLayer}
use alsvinn.Mpi.Decomposition.{decompose, neighbour_of}
use alsvinn.Mpi.Decomposition.Neighbours.{neighbour_of-opposite, opposite}
use alsvinn.Mpi.Decomposition.Tiles.{boxes_tile, Contains}
use alsvinn.Mpi.Decomposition.Sides.{decompose-Gives, IsDecomposed}
use alsvinn.Mpi.Decomposition.Answers.{IsAnswer, decompose-IsAnswer}
use alsvinn.Mpi.Exchange.{
  isend, ireceive, opposite_side, create_data_type_send, create_data_type_receive, exchange_cells,
}
use alsvinn.Mpi.Exchange.Datatypes.{HoldsLayers}
use alsvinn.Mpi.Exchange.Matching.{exchange_cells-matched}
use alsvinn.Uq.LoadBalancer.{Balance, SubConfiguration, load_balance}
use alsvinn.Uq.LoadBalancer.Chunks.{concat, load_balance-concat}

abbrev two_by_two : Vec3 ℕ
two_by_two = vec3 2 2 1

abbrev square : Grid ℤ
square = record {
  origin = vec3 (pos 0) (pos 0) (pos 0);
  top = vec3 (pos 4) (pos 4) (pos 1);
  dimensions = vec3 (pos 4) (pos 4) (pos 1);
  cell_lengths = vec3 (pos 1) (pos 1) (pos 1);
  boundary_conditions = all6 periodic;
  global_position = vec3 (pos 0) (pos 0) (pos 0);
  global_size = vec3 (pos 4) (pos 4) (pos 1);
}

rank-coordinates_example :
    let n = vec3 (pos 2) (pos 3) (pos 4) in
    ((r : ℕ) → r < 2 * 3 * 4 → get_rank_index (get_coordinates (pos r) n) n ≡ pos r)
    × ((x y z : ℕ)
        → x < 2
        → y < 3
        → z < 4
        → let c = vec3 (pos x) (pos y) (pos z) in get_coordinates (get_rank_index c n) n ≡ c)
rank-coordinates_example = rank-coordinates 2 3 4

compute_displacements-IsLayer_example :
    IsLayer 5 4 3 1 1 0 5 1 (4 * 3) 1
    × IsLayer 5 4 3 1 1 1 5 3 (4 * 3) 1
    × IsLayer 5 4 3 1 1 2 (5 * 4) (1 * 5) 3 (1 * 5)
    × IsLayer 5 4 3 1 1 3 (5 * 4) (2 * 5) 3 (1 * 5)
    × IsLayer 5 4 3 1 1 4 0 (1 * (5 * 4)) 1 (1 * 5 * 4)
    × IsLayer 5 4 3 1 1 5 0 (1 * (5 * 4)) 1 (1 * 5 * 4)
compute_displacements-IsLayer_example =
    compute_displacements-IsLayer 5 4 3 1 1 (omega arith) (omega arith) (omega arith)

boxes_tile_example :
    (r : ℕ) × (r < 2 * 2 * 1)
    × Contains square two_by_two two_by_two refl
        (omega arith, omega arith, omega arith)
        r
        (vec3 3 1 0)
    × ((r' : ℕ)
        → r' < 2 * 2 * 1
        → Contains square two_by_two two_by_two refl
            (omega arith, omega arith, omega arith)
            r'
            (vec3 3 1 0)
        → r' ≡ r)
boxes_tile_example =
    boxes_tile square two_by_two two_by_two refl (omega arith, omega arith, omega arith)
      (vec3 3 1 0) (omega arith, omega arith, omega arith)

right_of_first :
    neighbour_of square (map3 pos two_by_two) (get_coordinates (pos 0) (map3 pos two_by_two)) 1
    ≡ ok (pos 1)
unfolding neighbour_of get_coordinates
right_of_first = refl

neighbour_of-opposite_example :
    (1 < 2 * 2 * 1)
    × (neighbour_of square
          (map3 pos two_by_two)
          (get_coordinates (pos 1) (map3 pos two_by_two))
          (opposite 1)
        ≡ ok (pos 0))
unfolding get_boundary_condition
neighbour_of-opposite_example =
    neighbour_of-opposite square two_by_two 0 1 1 (omega arith) refl right_of_first

decompose-Gives_example :
    Gives
      (IsDecomposed square (vec3 4 4 1) two_by_two 3)
      (decompose false (map3 pos two_by_two) record { rank = pos 3; is_cpu = true } square)
decompose-Gives_example =
    decompose-Gives square (vec3 4 4 1) two_by_two refl false 3 (omega arith) (refl, refl, refl)

-- Three processes do not divide four cells.
decompose-IsAnswer_example :
    IsAnswer square
      (vec3 4 4 1)
      (vec3 3 2 1)
      3
      false
      true
      (decompose false (map3 pos (vec3 3 2 1)) record { rank = pos 3; is_cpu = true } square)
decompose-IsAnswer_example =
    decompose-IsAnswer square (vec3 4 4 1) (vec3 3 2 1) refl 3 (omega arith) false true

-- No process in the first direction: the remainder by 0 is undefined.
no_process :
    decompose false (map3 pos (vec3 0 2 1)) record { rank = pos 0; is_cpu = true } square
    ≡ err undefined
unfolding decompose
no_process = refl

-- Two by two by two cells with one layer of ghost cells
abbrev cube : Volume ℤ
cube = record { names = "rho" ∷ []; areas = []; nx = 2; ny = 2; nz = 2; ngx = 1; ngy = 1; ngz = 1 }

abbrev all_one : Vec6 ℤ
all_one = all6 (pos 1)

abbrev all_zero : Vec6 ℤ
all_zero = all6 (pos 0)

cube_dimensions : get_dimensions cube ≡ 3
unfolding get_dimensions
cube_dimensions = refl

cube_variable : 0 < get_number_of_variables cube
unfolding get_number_of_variables
cube_variable = omega arith

opposite_of_one : comp6 all_zero (opposite_side 1) ≡ pos 0
unfolding opposite_side
opposite_of_one = refl

exchange_cells-matched_example :
    (isend 0 (create_data_type_send 1 cube) (pos 1) 1 ∈ exchange_cells all_one cube cube)
    × (ireceive 0 (create_data_type_receive (opposite_side 1) cube) (pos 0) 1
        ∈ exchange_cells all_zero cube cube)
    × HoldsLayers cube (create_data_type_send 1 cube) 0 2
    × HoldsLayers cube (create_data_type_receive (opposite_side 1) cube) 0 0
unfolding total_x opposite_side
exchange_cells-matched_example =
    exchange_cells-matched all_one all_zero cube cube 1 0 0 1 refl opposite_of_one cube_dimensions
      (omega arith) cube_variable

abbrev six_samples : List ℕ
six_samples = 10 ∷ 11 ∷ 12 ∷ 13 ∷ 14 ∷ 15 ∷ []

abbrev key_of : SubConfiguration → ℕ
key_of c = c.key

load_balance-concat_example :
    (parts : List (List ℕ)) × (length parts ≡ 2)
    × (concat parts ≡ six_samples)
    × ((k s : ℕ)
        → k < 2
        → s < 2 * 1 * 1
        → (b : Balance) × (load_balance key_of six_samples 2
              (vec3 2 1 1)
              (2 * 2 * 1 * 1)
              (k * (2 * 1 * 1) + s)
            ≡ ok b)
          × (get_elem? parts k ≡ some b.samples))
load_balance-concat_example =
    load_balance-concat key_of six_samples 2 (vec3 2 1 1) refl (λ colour key h k. refl)
