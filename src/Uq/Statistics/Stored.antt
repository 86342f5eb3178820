-- ===== src/Uq/Statistics/Stored.antt =====
-- The maps of snapshots of alsuq/src/stats/StatisticsHelper.cpp after a write.
use Prim.Native.String.{String}
use text.Mathlib.Text.{◌==◌ as str_eq}
use text.Mathlib.TextEquality.{eq_iff}
use alsvinn.Base.{
  ◌≡◌, refl, ap, subst, ◌∙◌, List, [], ◌∷◌, Bool, true, false, Bool-cases, inl, inr, if◌then◌else◌,
  some,
}
use alsvinn.Base.Real.{Real}
use alsvinn.Uq.Statistics.{
  StatisticsSnapshot, Snapshots, map_find, map_set, same_time, at_time, get_snapshot, set_snapshot,
}

module _ {K V : Type 0} (is_key : K → Bool) (key : K) (v : V) where
  pub map_find-set_same :
      (m : List (K × V)) → is_key key ≡ true → map_find is_key (map_set is_key key v m) ≡ some v
  unfolding map_find map_set
  map_find-set_same [] same = rw same refl
  map_find-set_same ((k, w) ∷ m) same = elim (Bool-cases (is_key k)) [
    | inl e ↦ rw e (rw e refl)
    | inr e ↦ rw e (rw e (map_find-set_same m same))
  ]

  pub map_find-set_other :
      (other : K → Bool) (m : List (K × V))
      → ((k : K) → is_key k ≡ true → other k ≡ false)
      → is_key key ≡ true
      → map_find other (map_set is_key key v m) ≡ map_find other m
  unfolding map_find map_set
  map_find-set_other other [] apart same = rw (apart key same) refl
  map_find-set_other other ((k, w) ∷ m) apart same = elim (Bool-cases (is_key k)) [
    | inl e ↦ rw e (rw (apart k e) refl)
    | inr e ↦ rw e (ap (λ x. if other k then some w else x) (map_find-set_other other m apart same))
  ]

pub variance_apart : (k : String) → str_eq "mean" k ≡ true → str_eq "variance" k ≡ false
variance_apart k h = subst (λ u. str_eq "variance" u ≡ false) ((eq_iff "mean" k).0 h) refl

pub mean_apart : (k : String) → str_eq "variance" k ≡ true → str_eq "mean" k ≡ false
mean_apart k h = subst (λ u. str_eq "mean" u ≡ false) ((eq_iff "variance" k).0 h) refl

module _ {R : Type 0} ⦃r : Real R⦄ (time : R) (same : same_time time time ≡ true) where
  pub at_time-set_snapshot :
      (s : Snapshots R) (name : String) (x : StatisticsSnapshot R)
      → at_time (set_snapshot s time name x) time ≡ map_set (str_eq name) name x (at_time s time)
  unfolding at_time set_snapshot
  at_time-set_snapshot s name x =
      rw
        (map_find-set_same (same_time time) time (map_set (str_eq name) name x (at_time s time)) s
          same)
        refl

  pub get-set_same :
      (s : Snapshots R) (name : String) (x : StatisticsSnapshot R)
      → str_eq name name ≡ true
      → get_snapshot (set_snapshot s time name x) time name ≡ some x
  unfolding get_snapshot
  get-set_same s name x self =
      ap (map_find (str_eq name)) (at_time-set_snapshot s name x)
      ∙ map_find-set_same (str_eq name) name x (at_time s time) self

  pub get-set_other :
      (s : Snapshots R) (name other : String) (x : StatisticsSnapshot R)
      → str_eq name name ≡ true
      → ((k : String) → str_eq name k ≡ true → str_eq other k ≡ false)
      → get_snapshot (set_snapshot s time name x) time other ≡ get_snapshot s time other
  unfolding get_snapshot
  get-set_other s name other x self apart =
      ap (map_find (str_eq other)) (at_time-set_snapshot s name x)
      ∙ map_find-set_other (str_eq name) name x (str_eq other) (at_time s time) apart self
