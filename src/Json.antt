-- ===== src/Json.antt =====
-- JSON values as `serde_json::Value` presents them. A number is classified by the first of `is_i64`,
-- `is_u64` and `is_f64` that holds of it, the order in which the program asks; a float is its bit
-- pattern, on which the model does no arithmetic. The members of an object stand in iteration order.
use chiselstrike.Prelude.{ℕ, Str, Bool}
use chiselstrike.Prelude.Int.{ℤ}

pub data Number : Type 0 where
  i64 : ℤ → Number
  u64 : ℕ → Number
  f64 : ℕ → Number

mutual
  pub data Json : Type 0 where
    null : Json
    bool : Bool → Json
    number : Number → Json
    string : Str → Json
    array : Items → Json
    object : Members → Json

  pub data Items : Type 0 where
    nil : Items
    cons : Json → Items → Items

  pub data Members : Type 0 where
    end : Members
    member : Str → Json → Members → Members
