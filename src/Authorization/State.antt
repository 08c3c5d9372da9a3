-- ===== src/Authorization/State.antt =====
-- The storage of authorization.rs.
use chain_logistics.Base.{Bool, Option, none, some, String, ◌&&◌, ◌==◌, str_eq, if◌then◌else◌}
use chain_logistics.Host.Call.{Address}

pub record State : Type 0 where
  pub initializer : Option Address
  pub owner : String → Option Address
  pub authorized : String → Address → Option Bool

abbrev pub empty : State
empty = record { initializer = none; owner = λ _. none; authorized = λ _ _. none }

abbrev pub set_owner : String → Address → State → State
set_owner product_id owner s = record s {
  owner = λ other. if str_eq product_id other then some owner else s.owner other;
}

-- `set` with `some value`, `remove` with none.
abbrev pub set_authorized : String → Address → Option Bool → State → State
set_authorized product_id actor value s = record s {
  authorized = λ other who.
      if str_eq product_id other && actor == who then value else s.authorized other who;
}
