-- ===== src/Service/World.antt =====
-- What a service acts on: the database, and the events given to the event sink, oldest first
-- (src/domain/ports/EventSink.hpp).
use picasso_backend.Base.{List, [], ◌∷◌, ◌++◌}
use picasso_backend.Domain.Events.{Event}
use picasso_backend.Storage.Rows.{Database}

pub record World : Type 0 where
  pub db : Database
  pub published : List Event

unfoldable pub publish : Event → World → World
publish e w = record w { published = w.published ++ e ∷ [] }
