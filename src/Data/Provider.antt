-- ===== src/Data/Provider.antt =====
-- `RepositoryProvider` (pdip/data/repository/repository_provider.py).
use pdip.Prelude.{Option, none, some}
use pdip.Prelude.Results.{Result, ok, err, and_then}
use pdip.Parallel.Domain.{Error}

-- What the provider calls on a `DatabaseSessionManager` of type `M`, and the constructor of one.
pub record Managers (W M : Type 0) : Type 0 where
  pub make : W → Result Error M × W
  pub commit : M → W → Result Error (Unit {0}) × W
  pub rollback : M → W → Result Error (Unit {0}) × W
  pub close : M → W → Result Error (Unit {0}) × W
  pub connect : M → W → Result Error (Unit {0}) × W

-- `database_session_manager`, and the rest of the world.
pub record State (W M : Type 0) : Type 0 where
  pub database_session_manager : Option M
  pub world : W

module _ {W M : Type 0} (managers : Managers W M) where
  unfoldable pub created : State W M → Result Error M × W → Result Error M × State W M
  created s (ok manager, w) =
      (ok manager, record { database_session_manager = some manager; world = w })
  created s (err e, w) = (err e, record s { world = w })

  unfoldable pub create_or : Option M → State W M → Result Error M × State W M
  unfolding created
  create_or none s = created s (managers.make s.world)
  create_or (some manager) s = (ok manager, s)

  unfoldable pub create : State W M → Result Error M × State W M
  unfolding create_or
  create s = create_or s.database_session_manager s

  -- A call on the manager, if there is one.
  unfoldable pub if_present :
      Option M
      → (M → W → Result Error (Unit {0}) × W)
      → State W M
      → Result Error (Unit {0}) × State W M
  if_present none call s = (ok tt, s)
  if_present (some manager) call s =
      let (r, w) = call manager s.world in (r, record s { world = w })

  unfoldable pub commit : State W M → Result Error (Unit {0}) × State W M
  unfolding if_present
  commit s = if_present s.database_session_manager managers.commit s

  unfoldable pub rollback : State W M → Result Error (Unit {0}) × State W M
  unfolding if_present
  rollback s = if_present s.database_session_manager managers.rollback s

  unfoldable pub reconnect : State W M → Result Error (Unit {0}) × State W M
  unfolding if_present and_then
  reconnect s =
      if_present s.database_session_manager
        (λ manager w. and_then (managers.close manager w) (λ _ w'. managers.connect manager w')) s

  unfoldable pub close : State W M → Result Error (Unit {0}) × State W M
  unfolding if_present
  close s = if_present s.database_session_manager managers.close s
