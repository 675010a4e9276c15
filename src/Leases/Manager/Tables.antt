-- ===== src/Leases/Manager/Tables.antt =====
-- src/kclpp/leases/LeaseManager.cpp: `createTableIfNotExists` and `waitUntilLeaseTableExists`, over the
-- requests of the service that they pass on, on a state `S` of it.
use kclpp.Prelude.{ℕ, ◌≡◌, String, Bool, true, arith}
use kclpp.Outcome.{Outcome, success, failure}

pub record CreateTableParams : Type 0 where
  pub read_capacity : ℕ
  pub write_capacity : ℕ

-- the attribute is a string, and is the hash key
pub record CreateTableRequest : Type 0 where
  pub table_name : String
  pub read_capacity_units : ℕ
  pub write_capacity_units : ℕ
  pub attribute_name : String
  pub key_attribute : String

unfoldable pub create_table_request : String → CreateTableParams → CreateTableRequest
create_table_request table params = record {
  table_name = table;
  read_capacity_units = params.read_capacity;
  write_capacity_units = params.write_capacity;
  attribute_name = "leaseKey";
  key_attribute = "leaseKey";
}

module _ {R E : Type 0} where
  -- the callback of `createTableAsync`; the answer is `result.created`
  unfoldable pub on_create_table : Outcome R E → Outcome Bool E
  on_create_table (failure e) = failure e
  on_create_table (success r) = success true

module _ {S E : Type 0} where
  -- one question, whose answer is handed on at once
  unfoldable pub wait_until_lease_table_exists :
      (String → S → Outcome Bool E × S) → String → S → Outcome Bool E × S
  wait_until_lease_table_exists does_table_exist table st = does_table_exist table st

module _ {S R E : Type 0} where
  unfoldable pub create_table_if_not_exists :
      (CreateTableRequest → S → Outcome R E × S)
      → String
      → CreateTableParams
      → S
      → Outcome Bool E × S
  unfolding create_table_request on_create_table
  create_table_if_not_exists create_table table params st =
      let (outcome, st') = create_table (create_table_request table params) st in
      (on_create_table outcome, st')

  -- `createTableIfNotExists` of a table that is there gives the error of the service, where the
  -- service refuses to create such a table, and does not say that nothing was created.
  pub create_table_if_not_exists-exists :
      (create_table : CreateTableRequest → S → Outcome R E × S) (table : String)
      (params : CreateTableParams) (st : S) (e : E)
      → create_table (create_table_request table params) st ≡ (failure e, st)
      → create_table_if_not_exists create_table table params st ≡ (failure e, st)
  unfolding create_table_if_not_exists on_create_table
  create_table_if_not_exists-exists create_table table params st e h = ground (arith, h)
