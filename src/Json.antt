-- ===== src/Json.antt =====
-- The JSON values of the `serde_json` crate, as far as the program matches on them. The numbers of
-- that crate are a parameter. An object is its list of members; the crate's maps have one member
-- for a key, and the order of the members is not modelled.
use agenstro.Common.{Bool, Option, none, some, is_some, if◌then◌else◌}
use agenstro.Common.Text.{Text, text_eq}

mutual
  pub data Value (N : Type 0) : Type 0 where
    null : Value N
    boolean : Bool → Value N
    number : N → Value N
    string : Text → Value N
    array : Items N → Value N
    object : Fields N → Value N

  pub data Items (N : Type 0) : Type 0 where
    nil : Items N
    cons : Value N → Items N → Items N

  pub data Fields (N : Type 0) : Type 0 where
    end : Fields N
    field : Text → Value N → Fields N → Fields N

module _ {N : Type 0} where
  -- `Map::get`.
  unfoldable pub get : Text → Fields N → Option (Value N)
  get k end = none
  get k (field j v fs) = if text_eq j k then some v else get k fs

  unfoldable pub contains_key : Text → Fields N → Bool
  unfolding get
  contains_key k fs = is_some (get k fs)

  -- `Map::insert`.
  unfoldable pub insert : Text → Value N → Fields N → Fields N
  insert k v end = field k v end
  insert k v (field j w fs) = if text_eq j k then field k v fs else field j w (insert k v fs)

  abbrev pub as_str : Value N → Option Text
  as_str (string s) = some s
  as_str _ = none

  abbrev pub as_bool : Value N → Option Bool
  as_bool (boolean b) = some b
  as_bool _ = none

  abbrev pub as_object : Value N → Option (Fields N)
  as_object (object fs) = some fs
  as_object _ = none
