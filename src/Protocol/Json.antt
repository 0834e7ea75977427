-- ===== src/Protocol/Json.antt =====
-- The values that `json.loads` returns and `json.dumps` takes. Objects are lists of pairs, as the
-- `object_pairs_hook` sees them.
use lsmf.Base.{String, Bool, Option, ℤ}

mutual
  pub data Json : Type 0 where
    null : Json
    bool : Bool → Json
    int : ℤ → Json
    -- a number with a fraction or an exponent, with its integer value where it has one
    real : Option ℤ → Json
    str : String → Json
    arr : Items → Json
    obj : Fields → Json

  pub data Items : Type 0 where
    nil : Items
    cons : Json → Items → Items

  pub data Fields : Type 0 where
    end : Fields
    field : String → Json → Fields → Fields
