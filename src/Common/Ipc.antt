-- ===== src/Common/Ipc.antt =====
-- crates/common/src/ipc.rs: the lines that carry requests and responses. The JSON of a message is the
-- work of `serde_json`, a parameter.
pub mod Laws
use neals.Prelude.{ℕ, Bool, true, false, not, Option, none, some, List, [], ◌∷◌, ◌++◌, ◌||◌}
use neals.Prelude.Bools.{◌==◌, if◌then◌else◌}
use neals.Prelude.Outcome.{Outcome, ok, err, ◌>>=◌}
use neals.Prelude.Text.{codes, Str, is_empty, contains_char}

pub record ServiceRuntime : Type 0 where
  pub name : Str
  pub host : Str
  pub address : Str
  pub url : Str

pub record ProjectRuntime : Type 0 where
  pub name : Str
  pub pid : ℕ
  pub netns_pid : ℕ
  pub uptime_secs : ℕ
  pub services : List ServiceRuntime

-- `ServiceRuntime::summary`; 8594 is the arrow.
unfoldable pub summary : ServiceRuntime → Str
summary s =
    if is_empty s.url
    then (if is_empty s.address then s.host else s.host ++ 32 ∷ 8594 ∷ 32 ∷ s.address)
    else (if is_empty s.address
        then s.url ++ codes " (" ++ s.host ++ codes ")"
        else s.url ++ 32 ∷ 8594 ∷ 32 ∷ s.address)

pub data Request : Type 0 where
  ping status : Request
  up down : (project : Str) → Request

pub data Response : Type 0 where
  done pong : Response
  running : (projects : List ProjectRuntime) → Response
  failed : (message : Str) → Response

-- `Serialize` and `Deserialize` of a type, with the messages of their errors.
pub record Serde (A : Type 0) : Type 0 where
  pub to_string : A → Outcome Str Str
  pub from_str : Str → Outcome Str A

pub data LineError : Type 0 where
  not_serialized not_parsed : Str → LineError
  empty_message several_lines : LineError

-- `trim_end_matches(['\r', '\n'])`
unfoldable pub trim_line : Str → Str
trim_line [] = []
trim_line (c ∷ s) = elim (trim_line s) [
  | [] ↦ if c == 13 || c == 10 then [] else c ∷ []
  | d ∷ t ↦ c ∷ d ∷ t
]

module _ {A : Type 0} (serde : Serde A) where
  abbrev pub finish_line : Outcome Str Str → Outcome LineError Str
  finish_line (ok line) = ok (line ++ 10 ∷ [])
  finish_line (err e) = err (not_serialized e)

  unfoldable pub encode_line : A → Outcome LineError Str
  encode_line value = finish_line (serde.to_string value)

  abbrev parsed : Outcome Str A → Outcome LineError A
  parsed (ok value) = ok value
  parsed (err e) = err (not_parsed e)

  unfoldable pub decode_line : Str → Outcome LineError A
  decode_line line =
      let trimmed = trim_line line in
      if is_empty trimmed
      then err empty_message
      else if contains_char trimmed 10
      then err several_lines
      else parsed (serde.from_str trimmed)
