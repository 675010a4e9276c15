-- ===== src/Leases/Dynamo.antt =====
-- What the lease manager uses of DynamoDB. The service is no code of this repository: it is a
-- record of operations, and its documented behaviour is a record of hypotheses. Requests are
-- served one at a time; an interleaving of several workers is a sequence of requests.
use kclpp.Prelude.{
  ℕ, ◌≡◌, ◌≢◌, ◌⊎◌, String, Bool, true, false, ◌&&◌, ◌==◌, Option, none, some, List, [], ◌∷◌,
  str_eq,
}
use kclpp.Prelude.Dict.{Dict, find_option, insert_or_update, remove_if_exists}
use kclpp.Outcome.{Outcome, success, failure}
use kclpp.Leases.Codec.{AttributeValue, text, number, DynamoDict}

-- `ExpectedAttributeValue`: a value, or `WithExists(false)`
pub data ExpectedAttributeValue : Type 0 where
  with_value : AttributeValue → ExpectedAttributeValue
  not_exists : ExpectedAttributeValue

-- `AttributeValueUpdate`: a value to put, which is the default action, or the action `DELETE_`
pub data AttributeValueUpdate : Type 0 where
  put_value : AttributeValue → AttributeValueUpdate
  delete_value : AttributeValueUpdate

pub data AwsError : Type 0 where
  conditional_check_failed : AwsError
  other_error : String → AwsError

abbrev pub ExpectedMap : Type 0
ExpectedMap = Dict ExpectedAttributeValue

abbrev pub UpdateMap : Type 0
UpdateMap = Dict AttributeValueUpdate

abbrev pub list_eq : List ℕ → List ℕ → Bool
list_eq [] [] = true
list_eq (a ∷ as') (b ∷ bs) = (a == b) && list_eq as' bs
list_eq _ _ = false

abbrev pub value_eq : AttributeValue → AttributeValue → Bool
value_eq (text a) (text b) = str_eq a b
value_eq (number a) (number b) = list_eq a b
value_eq _ _ = false

-- an expectation at an attribute that may be missing
abbrev pub meets_one : ExpectedAttributeValue → Option AttributeValue → Bool
meets_one (with_value v) none = false
meets_one (with_value v) (some w) = value_eq v w
meets_one not_exists none = true
meets_one not_exists (some w) = false

-- the condition of a write: all the expectations hold of the item
abbrev pub meets : ExpectedMap → DynamoDict → Bool
meets [] item = true
meets ((k, e) ∷ es) item = meets_one e (find_option item k) && meets es item

-- the updates of a write, applied to the item
abbrev pub apply_updates : UpdateMap → DynamoDict → DynamoDict
apply_updates [] item = item
apply_updates ((k, put_value v) ∷ us) item = apply_updates us (insert_or_update k v item)
apply_updates ((k, delete_value) ∷ us) item = apply_updates us (remove_if_exists k item)

pub record Dynamo : Type 1 where
  pub Store : Type 0
  -- the item of a table under a lease key
  pub item : Store → String → String → Option DynamoDict
  -- `updateItem`: table, lease key, condition, updates
  pub update_item :
      String → String → ExpectedMap → UpdateMap → Store → Outcome (Unit {0}) AwsError × Store
  -- `putItem`: table, item, condition
  pub put_item : String → DynamoDict → ExpectedMap → Store → Outcome (Unit {0}) AwsError × Store
  -- `deleteItem`: table, lease key, condition
  pub delete_item : String → String → ExpectedMap → Store → Outcome (Unit {0}) AwsError × Store
  -- `getItem`: table, lease key
  pub get_item : String → String → Store → Outcome DynamoDict AwsError
  -- `scan`: table, limit
  pub scan : String → ℕ → Store → Outcome (List DynamoDict) AwsError

-- the item that a write sees; one that is missing has no attribute but its key
abbrev pub item_or_key : String → Option DynamoDict → DynamoDict
item_or_key key none = ("leaseKey", text key) ∷ []
item_or_key key (some it) = it

-- A write whose condition held and whose updates are in the item, with all other items as they were.
abbrev pub IsApplied :
    (d : Dynamo) → String → String → ExpectedMap → UpdateMap → d.Store → d.Store → Type 0
IsApplied d table key es us st st' =
    (meets es (item_or_key key (d.item st table key)) ≡ true)
    × (d.item st' table key ≡ some (apply_updates us (item_or_key key (d.item st table key))))
    × ((other : String) → other ≢ key → d.item st' table other ≡ d.item st table other)

-- The documented behaviour of a conditional update: it succeeds only if its condition holds, and
-- then puts its updates into the item and nothing else; a write whose condition does not hold fails
-- and changes nothing; a write that is answered by an error, as by a timeout, has been applied or
-- not; a request that names no table fails.
pub record IsDynamo (d : Dynamo) : Type 0 where
  pub update_success :
      (table key : String) (es : ExpectedMap) (us : UpdateMap) (st st' : d.Store)
      → d.update_item table key es us st ≡ (success tt, st')
      → (meets es (item_or_key key (d.item st table key)) ≡ true)
        × (d.item st' table key ≡ some (apply_updates us (item_or_key key (d.item st table key))))
  pub update_others :
      (table key other : String) (es : ExpectedMap) (us : UpdateMap) (st st' : d.Store)
      → d.update_item table key es us st ≡ (success tt, st')
      → other ≢ key
      → d.item st' table other ≡ d.item st table other
  pub update_refused :
      (table key : String) (es : ExpectedMap) (us : UpdateMap) (st : d.Store)
      → meets es (item_or_key key (d.item st table key)) ≡ false
      → (e : AwsError) × (d.update_item table key es us st ≡ (failure e, st))
  pub update_failure :
      (table key : String) (es : ExpectedMap) (us : UpdateMap) (st st' : d.Store) (e : AwsError)
      → d.update_item table key es us st ≡ (failure e, st')
      → (st' ≡ st) ⊎ IsApplied d table key es us st st'
  pub update_no_table :
      (key : String) (es : ExpectedMap) (us : UpdateMap) (st : d.Store)
      → (e : AwsError) × (d.update_item "" key es us st ≡ (failure e, st))
