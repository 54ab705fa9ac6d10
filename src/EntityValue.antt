-- ===== src/EntityValue.antt =====
-- server/src/datastore/value.rs: the values of entities. A float is its bit pattern; the entries of a
-- map stand in iteration order.
use chiselstrike.Prelude.{ℕ, Str, Bool}
use chiselstrike.Prelude.Int.{ℤ}

mutual
  pub data EntityValue : Type 0 where
    null : EntityValue
    string : Str → EntityValue
    int64 : ℤ → EntityValue
    float64 : ℕ → EntityValue
    boolean : Bool → EntityValue
    js_date : ℕ → EntityValue
    array : Items → EntityValue
    map : Entries → EntityValue
    bytes : Str → EntityValue

  pub data Items : Type 0 where
    nil : Items
    cons : EntityValue → Items → Items

  pub data Entries : Type 0 where
    end : Entries
    entry : Str → EntityValue → Entries → Entries
