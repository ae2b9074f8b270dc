-- ===== src/Node/Store/OneType.antt =====
-- Stores and snapshots of crates/raftvec-node/src/store.rs as one type, by univalence.
use mathlib.Core.HLevel.{Σ_prop_path}
use std.Equiv.{Iso, iso_to_equiv}
use std.Univalence.{iso_to_path, ua-β, ua-β⁻¹}
use std.Path.{transport, transport⁻¹}
use raftvec.Node.Store
use raftvec.Base.{◌≡◌, ap, nat_eq, string_eq}
use raftvec.Core.Float.{Float}
use raftvec.Node.Store.{
  Store, Collection, StoredVector, CollectionSnapshot, StoreSnapshot, snapshot, restore, stored,
  collection_snapshot, restore_collection,
}
use raftvec.Node.Store.Valid.{IsValid}
use raftvec.Node.Store.Replica.{restore-snapshot}
use raftvec.Node.Store.Props.{IsValid-prop}
use raftvec.Node.Store.Snapshots.{
  SnapshotHolds, SnapshotHolds-prop, snapshot-Holds, restore-IsValid, snapshot-restore,
}

module _ (F : Type 0) ⦃fl : Float F⦄ where
  abbrev pub ValidStore : Type 0
  ValidStore = (s : Store F) × IsValid s

  abbrev pub ValidSnapshot : Type 0
  ValidSnapshot = (p : StoreSnapshot F) × SnapshotHolds p

  abbrev snapshots : Iso (ValidStore) (ValidSnapshot)
  snapshots = record {
    fun = λ (s, v). (snapshot s, snapshot-Holds s v);
    inv = λ (p, v). (restore Store.new p, restore-IsValid Store.new p v);
    rinv = λ (p, v). Σ_prop_path SnapshotHolds-prop (snapshot-restore Store.new p v);
    linv = λ (s, v). Σ_prop_path IsValid-prop (restore-snapshot s Store.new v);
  }

  -- The type of the valid stores is the type of the valid snapshots, those with each key once and
  -- with records that fit their collections: along one path between the two types, a store goes to
  -- its snapshot, and a snapshot to the store that it restores.
  pub valid_stores-eq-valid_snapshots :
      (path : ValidStore ≡ ValidSnapshot) × ((s : ValidStore) → (transport path s).0 ≡ snapshot s.0)
      × ((p : ValidSnapshot) → (transport⁻¹ path p).0 ≡ restore Store.new p.0)
  valid_stores-eq-valid_snapshots = (
    iso_to_path snapshots,
    λ s. ap (λ q. q.0) (ua-β (iso_to_equiv snapshots) s),
    λ p. ap (λ q. q.0) (ua-β⁻¹ (iso_to_equiv snapshots) p),
  )
