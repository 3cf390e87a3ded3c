-- ===== src/Payloads/Laws.antt =====
-- `parse_action_payload` on its own results.
use lifeflow.Prelude.{
  ◌≡◌, refl, String, List, [], ◌∷◌, Option, none, some, map, Bool, arith, strip_by_twice,
  is_white_space,
}
use lifeflow.Models.{ActionType, create_task, create_gmail_draft, create_calendar_event}
use lifeflow.Payloads.Schema.{
  Payload, task, gmail_draft, calendar_event, TaskPayload, DraftPayload, EventPayload, trim,
  trim_option, trim_task, trim_draft, trim_event, parse_action_payload,
}

trim_twice : (s : String) → trim (trim s) ≡ trim s
trim_twice = strip_by_twice is_white_space

trim_option_twice : (o : Option String) → trim_option (trim_option o) ≡ trim_option o
trim_option_twice none = refl
trim_option_twice (some s) = rw trim_twice

map-trim_twice : (l : List String) → map trim (map trim l) ≡ map trim l
map-trim_twice [] = refl
map-trim_twice (s ∷ l) = rw (trim_twice s, map-trim_twice l)

trim_task_twice : (t : TaskPayload) → trim_task (trim_task t) ≡ trim_task t
trim_task_twice t = cc (trim_twice t.title, trim_twice t.notes)

trim_draft_twice : (d : DraftPayload) → trim_draft (trim_draft d) ≡ trim_draft d
trim_draft_twice d =
    cc (map-trim_twice d.to, trim_twice d.subject, trim_twice d.body, trim_option_twice d.thread_id)

trim_event_twice : (e : EventPayload) → trim_event (trim_event e) ≡ trim_event e
trim_event_twice e = cc (
  trim_twice e.title,
  trim_twice e.timezone,
  trim_option_twice e.location,
  trim_twice e.description,
  map-trim_twice e.attendees,
)

-- A payload that `parse_action_payload` has returned is parsed again to itself.
pub parse_action_payload-canonical :
    (zone_exists : String → Bool) (t : ActionType) (p : Payload) {q : Payload}
    → parse_action_payload zone_exists t p ≡ some q
    → parse_action_payload zone_exists t q ≡ some q
unfolding parse_action_payload
parse_action_payload-canonical zone_exists create_task (task t) h =
    ground (arith, trim_task_twice t)
parse_action_payload-canonical zone_exists create_gmail_draft (gmail_draft t) h =
    ground (arith, trim_draft_twice t)
parse_action_payload-canonical zone_exists create_calendar_event (calendar_event t) h =
    ground (arith, trim_event_twice t)
parse_action_payload-canonical zone_exists _ _ h = ground arith
