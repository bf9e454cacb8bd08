-- ===== src/Registry/Api/Events.antt =====
-- registry/services/event.py, `EventPublisher`, and the event endpoints of dag_manager/registry/api.py.
-- `publish` stands for the `publish` of the Redis client, which takes a channel and a text.
use Prim.Native.String
use mathlib.Core.List.{append_assoc}
use qmtl.Base.{String, List, [], ◌∷◌, ◌++◌, Option, none, some, err, ◌≡◌, refl}
use qmtl.Registry.Services.{http_exception, other, Op, ◌>>=◌, pure, raise, modify}
use qmtl.Registry.Api.{shielded}

-- An event, with the id of its node, pipeline or target. A protobuf message can be serialized; the models of
-- models/event.py cannot, since they have no `SerializeToString`.
pub record Event : Type 0 where
  pub target : String
  pub serialized : Option String

abbrev serialize_to_string : {S : Type 0} → Event → Op S String
serialize_to_string e = elim e.serialized [
  | none ↦ raise (other "no attribute 'SerializeToString'")
  | some bytes ↦ pure bytes
]

abbrev pub publish_event_detail : String
publish_event_detail = "이벤트 발행 처리 중 내부 서버 오류가 발생했습니다"

module _ {S : Type 0} (publish : (channel message : String) → Op S (Unit {0})) where
  -- Each event goes to the channel of its target and to the one of its kind.
  abbrev publish_to : (own_channel kind_channel : String) → Event → Op S (Unit {0})
  publish_to own_channel kind_channel event = do
    first ← serialize_to_string event
    sent ← publish own_channel first
    second ← serialize_to_string event
    publish kind_channel second

  abbrev pub publish_node_status : Event → Op S (Unit {0})
  publish_node_status event =
      publish_to (String.◌++◌ "event:node:" event.target) "event:node_status" event

  abbrev pub publish_pipeline_status : Event → Op S (Unit {0})
  publish_pipeline_status event =
      publish_to (String.◌++◌ "event:pipeline:" event.target) "event:pipeline_status" event

  abbrev pub publish_alert : Event → Op S (Unit {0})
  publish_alert event = publish_to (String.◌++◌ "event:alert:" event.target) "event:alert" event

  -- The endpoints; their answer is `{"result": "ok"}`.
  unfoldable pub publish_node_status_event : Event → Op S (Unit {0})
  publish_node_status_event event = shielded publish_event_detail (publish_node_status event)

  unfoldable pub publish_pipeline_status_event : Event → Op S (Unit {0})
  publish_pipeline_status_event event =
      shielded publish_event_detail (publish_pipeline_status event)

  unfoldable pub publish_alert_event : Event → Op S (Unit {0})
  publish_alert_event event = shielded publish_event_detail (publish_alert event)

-- A Redis that keeps what is published, oldest first
abbrev pub keeps : (channel message : String) → Op (List (String × String)) (Unit {0})
keeps channel message = modify (λ sent. sent ++ (channel, message) ∷ [])

-- An event that is a pydantic model, which is what the endpoints declare, is never published: each endpoint
-- fails with 500, whatever Redis does. An event that is a protobuf message is sent to two channels.
pub publish_event_lem :
    {S : Type 0} (publish : (channel message : String) → Op S (Unit {0})) (event : Event) (s : S)
    (sent : List (String × String))
    → (event.serialized ≡ none
        → (publish_node_status_event publish event s
            ≡ (s, err (http_exception 500 publish_event_detail)))
          × (publish_pipeline_status_event publish event s
              ≡ (s, err (http_exception 500 publish_event_detail)))
          × (publish_alert_event publish event s
              ≡ (s, err (http_exception 500 publish_event_detail))))
      × ((bytes : String)
          → event.serialized ≡ some bytes
          → ((publish_node_status_event keeps event sent).0
              ≡ sent
                ++ (String.◌++◌ "event:node:" event.target, bytes)
                  ∷ ("event:node_status", bytes)
                  ∷ []))
unfolding publish_node_status_event publish_pipeline_status_event publish_alert_event
publish_event_lem publish event s sent =
    (λ h. (rw h refl, rw h refl, rw h refl), λ bytes h. rw h (append_assoc sent _ _))
