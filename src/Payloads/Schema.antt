-- ===== src/Payloads/Schema.antt =====
-- The payload models of action_payloads.py and `parse_action_payload`.
use lifeflow.Prelude.{
  ℕ, Bool, true, ◌&&◌, String, List, Option, none, some, map, length, text_length, within, strip_by,
  is_white_space, ltb, leb, Eq, string_eq, nat_eq, if◌then◌else◌,
}
use lifeflow.Models.{ActionType, create_task, create_gmail_draft, create_calendar_event}
use lifeflow.Payloads.Address.{valid_addresses}

-- An aware datetime, as written: the instant in microseconds since the epoch, and the minutes of
-- its offset from UTC, counted from -24:00 so that they are a natural number.
pub record DateTime : Type 0 where
  pub instant : ℕ
  pub offset : ℕ

pub record TaskPayload : Type 0 where
  pub title : String
  pub notes : String
  pub due_at : Option DateTime

pub record DraftPayload : Type 0 where
  pub to : List String
  pub subject : String
  pub body : String
  pub thread_id : Option String

pub record EventPayload : Type 0 where
  pub title : String
  pub starts_at : DateTime
  pub ends_at : DateTime
  pub timezone : String
  pub location : Option String
  pub description : String
  pub attendees : List String

pub data Payload : Type 0 where
  task : TaskPayload → Payload
  gmail_draft : DraftPayload → Payload
  calendar_event : EventPayload → Payload
  -- `{}`, which a deletion leaves
  emptied : Payload

Payload-discrete : Discrete Payload
unfolding string_eq nat_eq
Payload-discrete = hlevel (string_eq.dec, nat_eq.dec)

instance unfoldable pub payload_eq : Eq Payload
unfolding Payload-discrete
payload_eq = record { dec = Payload-discrete }

-- `str_strip_whitespace`, which comes before the length checks.
abbrev pub trim : String → String
trim = strip_by is_white_space

abbrev pub trim_option : Option String → Option String
trim_option none = none
trim_option (some s) = some (trim s)

abbrev pub short_enough : ℕ → Option String → Bool
short_enough n none = true
short_enough n (some s) = leb (text_length s) n

abbrev pub trim_task : TaskPayload → TaskPayload
trim_task t = record t { title = trim t.title; notes = trim t.notes }

abbrev pub trim_draft : DraftPayload → DraftPayload
trim_draft d = record d {
  to = map trim d.to;
  subject = trim d.subject;
  body = trim d.body;
  thread_id = trim_option d.thread_id;
}

abbrev pub trim_event : EventPayload → EventPayload
trim_event e = record e {
  title = trim e.title;
  timezone = trim e.timezone;
  location = trim_option e.location;
  description = trim e.description;
  attendees = map trim e.attendees;
}

unfoldable pub valid_task : TaskPayload → Bool
valid_task t = within 1 200 (text_length t.title) && leb (text_length t.notes) 2000

unfoldable pub valid_draft : DraftPayload → Bool
valid_draft d =
    within 1 10 (length d.to)
    && within 1 250 (text_length d.subject)
    && within 1 10000 (text_length d.body)
    && short_enough 512 d.thread_id
    && valid_addresses d.to

module _ (zone_exists : String → Bool) where
  unfoldable pub valid_event : EventPayload → Bool
  valid_event e =
      within 1 250 (text_length e.title)
      && within 1 64 (text_length e.timezone)
      && short_enough 500 e.location
      && leb (text_length e.description) 5000
      && within 1 50 (length e.attendees)
      && zone_exists e.timezone
      && valid_addresses e.attendees
      && ltb e.starts_at.instant e.ends_at.instant

  -- `none` is a `ValidationError`. A payload of another action type has missing and extra fields.
  unfoldable pub parse_action_payload : ActionType → Payload → Option Payload
  parse_action_payload create_task (task t) =
      if valid_task (trim_task t) then some (task (trim_task t)) else none
  parse_action_payload create_gmail_draft (gmail_draft d) =
      if valid_draft (trim_draft d) then some (gmail_draft (trim_draft d)) else none
  parse_action_payload create_calendar_event (calendar_event e) =
      if valid_event (trim_event e) then some (calendar_event (trim_event e)) else none
  parse_action_payload _ _ = none

-- `effective_payload_deadline`
unfoldable pub effective_payload_deadline : Payload → Option DateTime
effective_payload_deadline (task t) = t.due_at
effective_payload_deadline (calendar_event e) = some e.starts_at
effective_payload_deadline (gmail_draft d) = none
effective_payload_deadline emptied = none
