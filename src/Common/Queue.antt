-- ===== src/Common/Queue.antt =====
-- x/common/types.go and rabbit_sender.go: priorities, tasks and their JSON form, and `Publish`.
-- Whether the broker takes a publication is for the environment to say (Env/Calls.antt).
use Prim.Native.String.{String}
use dwh.Base.{ℕ, ◌≡◌, refl, List, [], ◌∷◌, str_eq, if◌then◌else◌}

-- `iota` from 1.
unfoldable pub regular_update_priority : ℕ
regular_update_priority = 1

unfoldable pub transfer_triggered_priority : ℕ
transfer_triggered_priority = 2

unfoldable pub freshly_made_priority : ℕ
freshly_made_priority = 3

unfoldable pub forced_updates_priority : ℕ
forced_updates_priority = 4

pub record TaskInfo : Type 0 where
  pub owner : String
  pub token_id : String
  pub url : String

-- A JSON object of texts, with its keys in order. A key that is a tag of the struct but for its case
-- stands here as the tag, since `json.Unmarshal` takes it for that.
abbrev pub Json : Type 0
Json = List (String × String)

-- json.Marshal(&TaskInfo{…}), by the tags of the struct; it cannot fail on texts.
unfoldable pub marshal : TaskInfo → Json
marshal t = ("owner", t.owner) ∷ ("token_id", t.token_id) ∷ ("url", t.url) ∷ []

-- The body of a task, as `json.Unmarshal` reads it.
pub data Body : Type 0 where
  object : Json → Body
  malformed : String → Body

-- A field of the struct after the keys of an object: the last value of its key, or the field as it
-- was where the key is missing.
pub field : String → String → Json → String
field old k [] = old
field old k ((j, v) ∷ o) = field (if str_eq j k then v else old) k o

-- json.Unmarshal(msg, &rcvd), into a zero value.
unfoldable pub unmarshal : Json → TaskInfo
unfolding field
unmarshal o = record {
  owner = field "" "owner" o;
  token_id = field "" "token_id" o;
  url = field "" "url" o;
}

-- amqp.Publishing with the arguments of Channel.Publish. Every one here is persistent, of type
-- "application/json", and neither mandatory nor immediate.
pub record Publication : Type 0 where
  pub exchange : String
  pub key : String
  pub body : Json
  pub priority : ℕ

-- RMQSender, as far as `Publish` reads it: the name of its queue.
pub record RmqSender : Type 0 where
  pub queue : String

unfoldable pub publication : RmqSender → String → String → String → ℕ → Publication
publication s task_url owner token_id priority = record {
  exchange = "";
  key = s.queue;
  body = marshal (record { owner = owner; token_id = token_id; url = task_url });
  priority = priority;
}

-- A consumer reads back the task that a sender wrote.
pub unmarshal-marshal : (t : TaskInfo) → unmarshal (marshal t) ≡ t
unfolding marshal unmarshal
unmarshal-marshal t = refl
