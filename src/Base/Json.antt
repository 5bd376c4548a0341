-- ===== src/Base/Json.antt =====
-- Decoded JSON, as the configuration columns hold it. Of a number the code reads only whether it is
-- zero, so numbers are natural.
use Prim.Native.Nat.{ℕ}
use Prim.Native.String.{String}
use mathlib.Core.Bool.{Bool, true, false, not}
use mathlib.Core.Option.{Option, none, some}
use self_managed_agents.Base.Tests.{◌==◌, string_eq, nat_eq, if◌then◌else◌}

mutual
  pub data Json : Type 0 where
    null : Json
    bool : Bool → Json
    num : ℕ → Json
    str : String → Json
    arr : Items → Json
    obj : Fields → Json

  pub data Items : Type 0 where
    nil : Items
    cons : Json → Items → Items

  pub data Fields : Type 0 where
    end : Fields
    field : String → Json → Fields → Fields

-- `d.get(key)`
unfoldable pub get : String → Fields → Option Json
get key end = none
get key (field name value rest) = if name == key then some value else get key rest

-- `bool(value)`
unfoldable pub truthy : Json → Bool
truthy null = false
truthy (bool b) = b
truthy (num n) = not (n == 0)
truthy (str s) = not (s == "")
truthy (arr nil) = false
truthy (arr (cons x xs)) = true
truthy (obj end) = false
truthy (obj (field name value rest)) = true

-- `bool(d.get(key))`
unfoldable pub get_truthy : String → Fields → Bool
unfolding get truthy
get_truthy key fields = elim (get key fields) [ none ↦ false | some value ↦ truthy value ]
