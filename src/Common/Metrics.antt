-- ===== src/Common/Metrics.antt =====
-- x/common/metrics.go: the counter of messages, by status and message type, and the values of its
-- labels that are used.
use Prim.Native.String.{String}
use dwh.Base.{Option, none, some, List, [], ◌∷◌, ◌<>◌}
use dwh.Env.Action.{Outcome, ok, panic}

abbrev pub received : String
received = "Received"

abbrev pub accepted : String
accepted = "Accepted"

abbrev pub common : String
common = "Common"

-- prometheus.CounterOpts, with the labels of the vector.
pub record CounterVec : Type 0 where
  pub namespace : String
  pub subsystem : String
  pub name : String
  pub help : String
  pub labels : List String

pub record MsgMetrics : Type 0 where
  pub num_msgs : CounterVec

-- The first argument is the error of prometheus.Register, on which `MustRegister` panics.
unfoldable pub new_prometheus_msg_metrics :
    (CounterVec → Option String) → String → Outcome MsgMetrics
new_prometheus_msg_metrics register mod_name =
    let num_msgs : CounterVec = record {
      namespace = "DWH";
      subsystem = mod_name <> "_MetricsSubsystem";
      name = "NumMsgs";
      help = "number of messages since start";
      labels = "status" ∷ "msg_type" ∷ [];
    } in
    elim (register num_msgs) [ some _ ↦ panic | none ↦ ok (record { num_msgs = num_msgs }) ]
