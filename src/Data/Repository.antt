-- ===== src/Data/Repository.antt =====
-- `Repository` (pdip/data/repository/repository.py).
use pdip.Prelude.{ℕ, Bool, Option, none, some, if◌then◌else◌}
use pdip.Prelude.Results.{Result, ok, err, and_then}
use pdip.Parallel.Domain.{Error, other}

-- An identifier of 128 bits, as a UUID or as its text.
pub data Uid : Type 0 where
  uuid text_of_uuid : ℕ → Uid

-- The columns that the repository sets, and the key of an entity.
pub record Entity : Type 0 where
  pub id : ℕ
  pub tenant_id : Option Uid
  pub create_user_time : Option ℕ
  pub create_user_id : Option Uid
  pub update_user_time : Option ℕ
  pub update_user_id : Option Uid
  pub gc_rec_id : Option Uid

-- The session of SQLAlchemy in the world `W`: the first row of a key, the addition of an entity,
-- what it sees when an entity that it tracks has new values, and its commit; the clock, and a
-- random identifier.
pub record Session (W : Type 0) : Type 0 where
  pub first_by_id : ℕ → W → Result Error (Option Entity) × W
  pub add : Entity → W → Result Error (Unit {0}) × W
  pub change : Entity → W → W
  pub commit : W → Result Error (Unit {0}) × W
  pub now : W → ℕ
  pub uuid4 : W → ℕ

-- `uuid.UUID(n)`, or its text where the database is not PostgreSQL.
unfoldable pub uid : Bool → ℕ → Uid
uid is_postgresql n = if is_postgresql then uuid n else text_of_uuid n

unfoldable pub or_zero : Bool → Option Uid → Option Uid
unfolding uid
or_zero is_postgresql none = some (uid is_postgresql 0)
or_zero is_postgresql (some tenant) = some tenant

module _ {W : Type 0} (session : Session W) (is_postgresql : Bool) where
  unfoldable pub get_by_id : ℕ → W → Result Error (Option Entity) × W
  get_by_id id w = session.first_by_id id w

  unfoldable pub inserted : Entity → W → Entity
  unfolding uid or_zero
  inserted entity w = record entity {
    tenant_id = or_zero is_postgresql entity.tenant_id;
    create_user_time = some (session.now w);
    create_user_id = some (uid is_postgresql 0);
  }

  unfoldable pub insert : Entity → W → Result Error (Unit {0}) × W
  unfolding inserted
  insert entity w = session.add (inserted entity w) w

  unfoldable pub updated : Entity → W → Entity
  unfolding uid
  updated entity w = record entity {
    update_user_time = some (session.now w);
    update_user_id = some (uid is_postgresql 0);
  }

  unfoldable pub update : Entity → W → W
  unfolding updated
  update entity w = session.change (updated entity w) w

  -- A row is marked and stays.
  unfoldable pub deleted : Entity → W → Entity
  unfolding updated uid
  deleted entity w = record (updated entity w) {
    gc_rec_id = some (uid is_postgresql (session.uuid4 w));
  }

  unfoldable pub delete : Entity → W → W
  unfolding deleted
  delete entity w = session.change (deleted entity w) w

  -- What `delete` makes of the first row, which may be None.
  unfoldable pub delete_found : Option Entity → W → Result Error (Unit {0}) × W
  unfolding delete
  delete_found none w = (err (other "AttributeError"), w)
  delete_found (some entity) w = (ok tt, delete entity w)

  unfoldable pub delete_by_id : ℕ → W → Result Error (Unit {0}) × W
  unfolding get_by_id delete_found and_then
  delete_by_id id w = and_then (get_by_id id w) λ found w'. delete_found found w'

  unfoldable pub commit : W → Result Error (Unit {0}) × W
  commit w = session.commit w
