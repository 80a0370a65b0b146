-- ===== src/Protocol/Json.antt =====
-- The tree that Go's `encoding/json` makes of a document with `UseNumber`: a number keeps the code
-- points of its literal.
use retentionops_connector.Prelude.{ℕ, String, Bool, List}

mutual
  pub data Json : Type 0 where
    null : Json
    bool : Bool → Json
    string : String → Json
    number : List ℕ → Json
    array : Items → Json
    object : Members → Json

  pub data Items : Type 0 where
    nil : Items
    cons : Json → Items → Items

  pub data Members : Type 0 where
    end : Members
    member : String → Json → Members → Members
