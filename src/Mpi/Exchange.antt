-- ===== src/Mpi/Exchange.antt =====
-- alsfvm/src/mpi/CartesianCellExchanger.cpp: the requests that a process makes to exchange its ghost
-- cells. A request is a value here, and MPI, which carries it out, is not modelled.
pub mod Layers
pub mod Datatypes
pub mod Matching
use alsvinn.Base.{
  ℕ, zero, suc, ◌+◌, ◌*◌, ◌/◌, ◌%◌, List, [], ◌∷◌, ◌++◌, Bool, true, false, if◌then◌else◌,
}
use alsvinn.Base.Int.{ℤ, pos, negsuc, ltb_ℤ}
use alsvinn.Vec.{Vec3, comp, Vec6, comp6}
use alsvinn.Volume.{
  Volume, get_dimensions, get_total_dimensions, get_number_of_ghost_cells, get_number_of_variables,
}
use alsvinn.Mpi.Cartesian.{compute_number_of_segments, compute_displacements, compute_lengths}

-- `MpiIndexType`
pub record IndexType : Type 0 where
  pub number_of_blocks : ℤ
  pub block_lengths : List ℤ
  pub offsets : List ℤ

pub data Request : Type 0 where
  isend ireceive : (variable : ℕ) (datatype : IndexType) (process : ℤ) (tag : ℕ) → Request

-- `hasSide`
unfoldable pub has_side : Vec6 ℤ → ℕ → Bool
has_side neighbours side = ltb_ℤ (negsuc 0) (comp6 neighbours side)

unfoldable pub opposite_side : ℕ → ℕ
opposite_side side = (side % 2 + 1) % 2 + side / 2 * 2

-- `if (present) container.addRequest(request)`
unfoldable pub only : Bool → Request → List Request
only present request = if present then request ∷ [] else []

module _ {R : Type 0} where
  -- The sides that are sent begin behind the ghost cells, and those received are the ghost cells.
  datatype_at : ℕ → ℤ → Volume R → IndexType
  unfolding compute_number_of_segments compute_displacements compute_lengths get_dimensions
      get_total_dimensions get_number_of_ghost_cells
  datatype_at side base_offset v =
      let ghosts = comp (get_number_of_ghost_cells v) (side / 2) in
      record {
        number_of_blocks =
            compute_number_of_segments side (get_dimensions v) (get_total_dimensions v);
        block_lengths = compute_lengths side (get_dimensions v) (get_total_dimensions v) ghosts;
        offsets =
            compute_displacements side (get_dimensions v) (get_total_dimensions v) ghosts
              base_offset;
      }

  unfoldable pub create_data_type_send : ℕ → Volume R → IndexType
  unfolding datatype_at get_number_of_ghost_cells
  create_data_type_send side v = datatype_at side (comp (get_number_of_ghost_cells v) (side / 2)) v

  unfoldable pub create_data_type_receive : ℕ → Volume R → IndexType
  unfolding datatype_at
  create_data_type_receive side v = datatype_at side (pos 0) v

  -- The requests for one side and one variable
  unfoldable pub requests_at : Vec6 ℤ → Volume R → ℕ → ℕ → List Request
  unfolding only has_side opposite_side create_data_type_send create_data_type_receive
  requests_at neighbours output side variable =
      let other = opposite_side side in
      only (has_side neighbours side) (
        isend variable (create_data_type_send side output) (comp6 neighbours side)
          (side + variable * 6))
      ++ only (has_side neighbours other) (
          ireceive variable (create_data_type_receive other output) (comp6 neighbours other)
            (side + variable * 6))

  unfoldable pub requests_of_side : Vec6 ℤ → Volume R → ℕ → ℕ → ℕ → List Request
  unfolding requests_at
  requests_of_side neighbours output side zero variable = []
  requests_of_side neighbours output side (suc rounds) variable =
      requests_at neighbours output side variable
      ++ requests_of_side neighbours output side rounds (suc variable)

  unfoldable pub requests_from : Vec6 ℤ → Volume R → ℕ → ℕ → ℕ → List Request
  unfolding requests_of_side
  requests_from neighbours output variables zero side = []
  requests_from neighbours output variables (suc rounds) side =
      requests_of_side neighbours output side variables 0
      ++ requests_from neighbours output variables rounds (suc side)

  -- `exchangeCells`, with the datatypes that `createDataTypes` makes of the output volume
  unfoldable pub exchange_cells : Vec6 ℤ → Volume R → Volume R → List Request
  unfolding requests_from get_dimensions get_number_of_variables
  exchange_cells neighbours output input =
      requests_from neighbours output (get_number_of_variables input) (2 * get_dimensions output) 0
