-- ===== src/Provenance.antt =====
-- grace_mem/data_model/provenance.py: provenance blobs, their events, and the merge of two blobs.
-- A summary id is a text.
use grace_mem.Common.{
  ℕ, zero, suc, ◌+◌, ◌≤◌, ◌≡◌, Bool, true, false, not, ◌&&◌, ◌||◌, Option, none, some, List, [],
  ◌∷◌, ◌++◌, map, if◌then◌else◌, leb, Eq, text_eq, Text, list_beq, list_beq_iff, ◌↔◌, Dict, put,
  values, foldl, has_char, colon, partition_colon, is_empty, ltb, eqb, nat_eq, ◌/◌, ◌%◌, refl,
  arith, ap,
}
pub mod Merge
pub mod Sorted

-- One event; `none` is a missing value.
pub record ProvEvent : Type 0 where
  pub ts : ℕ
  pub summary_id : Option Text
  pub session_id : Option Text
  pub message_id : Option Text
  pub dialogue_datetime : Option Text

-- A session or message id as a blob carries it: an int, of which `negative n` is -(n + 1), or a str.
pub data Ident : Type 0 where
  num negative : ℕ → Ident
  word : Text → Ident

-- The decimal digits of a number, with room for as many as its value.
unfoldable pub digits : ℕ → ℕ → Text
digits zero n = (48 + n) ∷ []
digits (suc room) n =
    if ltb n 10 then (48 + n) ∷ [] else digits room (n / 10) ++ ((48 + n % 10) ∷ [])

-- `str(...)`
unfoldable pub str : Ident → Text
unfolding digits
str (num n) = digits n n
str (negative n) = b'-' ∷ digits (n + 1) (n + 1)
str (word s) = s

-- An event as a blob carries it: each id under its spellings, and a time stamp that may be missing.
pub record RawEvent : Type 0 where
  pub ts : Option ℕ
  pub summary_id : Option Text
  pub session_id : Option Ident
  pub session_id_spaced : Option Ident
  pub sess_id : Option Ident
  pub message_id : Option Ident
  pub msg_id : Option Ident
  pub dialogue_datetime : Option Text

-- The two shapes of a blob, and the falsy one.
pub data Prov : Type 0 where
  absent : Prov
  events : List RawEvent → Prov
  flat : List Text → Option Ident → Option Ident → Option Text → Prov

unfoldable pub is_falsy : Ident → Bool
is_falsy (num n) = eqb n 0
is_falsy (negative n) = false
is_falsy (word s) = is_empty s

-- `a or b` on ids that may be missing.
unfoldable pub or_id : Option Ident → Option Ident → Option Ident
unfolding is_falsy
or_id none b = b
or_id (some i) b = if is_falsy i then b else some i

-- `None if x is None else str(x)`
unfoldable pub str_of : Option Ident → Option Text
unfolding str
str_of none = none
str_of (some i) = some (str i)

-- `s or t` on texts, the first of which may be missing.
unfoldable pub or_text : Option Text → Text → Option Text
or_text none t = some t
or_text (some s) t = if is_empty s then some t else some s

unfoldable pub or_zero : Option ℕ → ℕ
or_zero none = 0
or_zero (some n) = n

unfoldable pub normalize_event : RawEvent → ProvEvent
unfolding or_id or_zero str_of
normalize_event e = record {
  ts = or_zero e.ts;
  summary_id = e.summary_id;
  session_id = str_of (or_id e.session_id (or_id e.session_id_spaced e.sess_id));
  message_id = str_of (or_id e.message_id e.msg_id);
  dialogue_datetime = e.dialogue_datetime;
}

unfoldable pub is_none : Option Text → Bool
is_none none = true
is_none (some s) = false

-- One event of the flat form: its origin comes from a "session:message" summary id where the blob
-- did not carry it.
unfoldable pub flat_event : Option Text → Option Text → Option Text → ℕ → Text → ProvEvent
unfolding or_text is_none
flat_event sess msg dt idx sid =
    let split = (is_none sess || is_none msg) && has_char colon sid in
    let (p_sess, p_msg) = partition_colon sid in
    record {
      ts = idx;
      summary_id = some sid;
      session_id = if split then or_text sess p_sess else sess;
      message_id = if split then or_text msg p_msg else msg;
      dialogue_datetime = dt;
    }

-- `for idx, sid in enumerate(summary_ids)`
unfoldable pub flat_events :
    Option Text → Option Text → Option Text → ℕ → List Text → List ProvEvent
unfolding flat_event
flat_events sess msg dt idx [] = []
flat_events sess msg dt idx (sid ∷ sids) =
    flat_event sess msg dt idx sid ∷ flat_events sess msg dt (idx + 1) sids

unfoldable pub prov_to_events : Prov → List ProvEvent
unfolding normalize_event flat_events str_of
prov_to_events absent = []
prov_to_events (events evs) = map normalize_event evs
prov_to_events (flat sids sess msg dt) = flat_events (str_of sess) (str_of msg) dt 0 sids

-- The key of the merge: (session_id, message_id, summary_id).
abbrev pub Origin : Type 0
Origin = Option Text × Option Text × Option Text

unfoldable pub origin : ProvEvent → Origin
origin e = (e.session_id, e.message_id, e.summary_id)

-- `sorted(..., key=ts)`: a stable insertion sort.
unfoldable pub insert_event : ProvEvent → List ProvEvent → List ProvEvent
insert_event e [] = e ∷ []
insert_event e (f ∷ fs) = if leb e.ts f.ts then e ∷ f ∷ fs else f ∷ insert_event e fs

unfoldable pub sort_events : List ProvEvent → List ProvEvent
unfolding insert_event
sort_events [] = []
sort_events (e ∷ es) = insert_event e (sort_events es)

unfoldable pub option_beq : Option Text → Option Text → Bool
option_beq none none = true
option_beq (some a) (some b) = list_beq a b
option_beq (some a) none = false
option_beq none (some b) = false

option_beq_iff : (a b : Option Text) → (option_beq a b ≡ true) ↔ (a ≡ b)
unfolding option_beq
option_beq_iff none none = (λ h. refl, λ h. refl)
option_beq_iff (some a) (some b) = ground (arith, list_beq_iff a b)
option_beq_iff none (some b) = ground arith
option_beq_iff (some a) none = ground arith

unfoldable pub origin_beq : Origin → Origin → Bool
unfolding option_beq
origin_beq (a, b, c) (x, y, z) = option_beq a x && (option_beq b y && option_beq c z)

pub origin_beq_iff : (a b : Origin) → (origin_beq a b ≡ true) ↔ (a ≡ b)
unfolding origin_beq
origin_beq_iff (a, b, c) (x, y, z) = (
  λ h. ground (arith, option_beq_iff a x, option_beq_iff b y, option_beq_iff c z),
  λ h. ground (arith, option_beq_iff a x, option_beq_iff b y, option_beq_iff c z),
)

instance abbrev pub origin_eq : Eq Origin
origin_eq = record { beq = origin_beq; beq_iff = origin_beq_iff }

-- `merged = {k(e): e for e in old}; for e in new: merged[k(e)] = e`
unfoldable pub merged_by_origin : List ProvEvent → List ProvEvent → Dict Origin ProvEvent
unfolding origin
merged_by_origin old new =
    foldl (λ d e. put (origin e) e d) (foldl (λ d e. put (origin e) e d) [] old) new

unfoldable pub merge_prov : Prov → Prov → List ProvEvent
unfolding merged_by_origin sort_events prov_to_events
merge_prov old new =
    sort_events (values (merged_by_origin (prov_to_events old) (prov_to_events new)))
