-- ===== src/Pipeline/Trigger.antt =====
-- The event trigger (pipeline/event_trigger.py): it subscribes every event task to its channels of
-- the bus, and creates a run when one of them fires. The dictionary `_subscriptions` is only
-- written, so it is left out.
use second_brain_art.Common.{
  ℕ, suc, ◌+◌, ◌-◌, ◌≡◌, refl, ap, sym, ◌∙◌, Bool, true, false, none, some, List, [], ◌∷◌, ◌++◌,
  map, String, if◌then◌else◌, arith, Bool-cases, inl, inr,
}
use mathlib.Core.List.{append-nil, append_assoc}
use second_brain_art.Events.{
  Bus, subscribe, unsubscribe, copies, matches, subscribe-copies, unsubscribe-copies,
}
use second_brain_art.Pipeline.Runs.{create_run}
use second_brain_art.Pipeline.Tasks.{BaseTask, Tasks, Graph, on_event}
use second_brain_art.Pipeline.World.{Env, World}
use second_brain_art.Pipeline.EventRuns.{created, run_id_for}

-- What the trigger keeps of a subscription, in place of its unsubscribe function.
pub record Subscription : Type 0 where
  pub channel : String
  pub handler : ℕ
  pub task : BaseTask

pub record EventTrigger : Type 0 where
  pub bus : Bus
  pub unsubs : List Subscription
  pub started : Bool
  -- the function objects made so far
  pub made : ℕ

unfoldable pub unsubscribe_all : List Subscription → Bus → Bus
unsubscribe_all [] bus = bus
unsubscribe_all (s ∷ subs) bus = unsubscribe_all subs (unsubscribe s.channel s.handler bus)

unfoldable pub stop : Bool → EventTrigger → EventTrigger
stop clear_started t = record t {
  bus = unsubscribe_all t.unsubs t.bus;
  unsubs = [];
  started = if clear_started then false else t.started;
}

abbrev pub subscription : String → ℕ → BaseTask → Subscription
subscription channel handler task = record { channel = channel; handler = handler; task = task }

unfoldable pub subscribe_channels : BaseTask → List String → EventTrigger → EventTrigger
subscribe_channels task [] t = t
subscribe_channels task (channel ∷ channels) t = subscribe_channels task channels (record t {
  bus = subscribe channel t.made t.bus;
  unsubs = t.unsubs ++ (subscription channel t.made task ∷ []);
  made = suc t.made;
})

unfoldable pub subscribe_tasks : List BaseTask → EventTrigger → EventTrigger
subscribe_tasks [] t = t
subscribe_tasks (task ∷ tasks) t =
    let with_task = subscribe_channels task task.trigger_channels t in
    subscribe_tasks tasks (if on_event task then with_task else t)

unfoldable pub refresh : List BaseTask → EventTrigger → EventTrigger
refresh tasks t = if t.started then subscribe_tasks tasks (stop false t) else t

unfoldable pub start : List BaseTask → EventTrigger → EventTrigger
start tasks t = refresh tasks (record t { started = true })

-- `_make_handler`: what the handler does with the JSON text of a payload
unfoldable pub handle : Env → Tasks → Graph → BaseTask → String → String → World → World
handle env tasks g task channel payload_json w =
    (created env tasks g task.name w (
      create_run (env.time w.ticks) (run_id_for env tasks g task w) task.name (some channel)
        (some payload_json) none w.runs)).0

-- How often the trigger holds a subscription of the handler to the channel.
unfoldable pub owned : String → ℕ → List Subscription → ℕ
owned c handler [] = 0
owned c handler (s ∷ subs) = matches s.channel s.handler c handler + owned c handler subs

-- The channels that the event tasks declare, in order.
unfoldable pub declared : List BaseTask → List String
declared [] = []
declared (task ∷ tasks) =
    if on_event task then task.trigger_channels ++ declared tasks else declared tasks

abbrev pub channel_of : Subscription → String
channel_of s = s.channel

owned-append :
    (c : String) (h : ℕ) (xs ys : List Subscription)
    → owned c h (xs ++ ys) ≡ owned c h xs + owned c h ys
unfolding owned
owned-append c h [] ys = omega arith
owned-append c h (x ∷ xs) ys = omega (arith, owned-append c h xs ys)

channels-append :
    (xs ys : List Subscription) → map channel_of (xs ++ ys) ≡ map channel_of xs ++ map channel_of ys
channels-append [] ys = refl
channels-append (x ∷ xs) ys = ap (λ r. x.channel ∷ r) (channels-append xs ys)

unsubscribe_all-copies :
    (c : String) (h : ℕ) (subs : List Subscription) (bus : Bus)
    → copies c h (unsubscribe_all subs bus) ≡ copies c h bus - owned c h subs
unfolding unsubscribe_all owned
unsubscribe_all-copies c h [] bus = omega arith
unsubscribe_all-copies c h (s ∷ subs) bus = omega (
  arith,
  unsubscribe-copies c h s.channel s.handler bus,
  unsubscribe_all-copies c h subs (unsubscribe s.channel s.handler bus),
)

-- From `t` to `u` the trigger subscribed to `channels`, and it holds what it subscribed.
record Adds (channels : List String) (t u : EventTrigger) : Type 0 where
  pub channels_added : map channel_of u.unsubs ≡ map channel_of t.unsubs ++ channels
  pub copies_added :
      (c : String) (h : ℕ)
      → copies c h u.bus + owned c h t.unsubs ≡ copies c h t.bus + owned c h u.unsubs
  pub still_started : u.started ≡ t.started

Adds-channels :
    (task : BaseTask) (channels : List String) (t : EventTrigger)
    → Adds channels t (subscribe_channels task channels t)
unfolding subscribe_channels owned
Adds-channels task [] t = record {
  channels_added = sym (append-nil (map channel_of t.unsubs));
  copies_added = λ c h. refl;
  still_started = refl;
}
Adds-channels task (channel ∷ channels) t =
    let s = subscription channel t.made task in
    let u = record t {
      bus = subscribe channel t.made t.bus;
      unsubs = t.unsubs ++ (s ∷ []);
      made = suc t.made;
    } in
    let rest = Adds-channels task channels u in
    record {
      channels_added =
          rest.channels_added
          ∙ ap (λ r. r ++ channels) (channels-append t.unsubs (s ∷ []))
          ∙ append_assoc (map channel_of t.unsubs) (channel ∷ []) channels;
      copies_added = λ c h. omega (
        arith,
        rest.copies_added c h,
        owned-append c h t.unsubs (s ∷ []),
        subscribe-copies c h channel t.made t.bus,
      );
      still_started = rest.still_started;
    }

Adds-none : (t : EventTrigger) → Adds [] t t
Adds-none t = record {
  channels_added = sym (append-nil (map channel_of t.unsubs));
  copies_added = λ c h. refl;
  still_started = refl;
}

Adds-both :
    (xs ys : List String) (t u v : EventTrigger) → Adds xs t u → Adds ys u v → Adds (xs ++ ys) t v
Adds-both xs ys t u v a b = record {
  channels_added =
      b.channels_added
      ∙ ap (λ r. r ++ ys) a.channels_added
      ∙ append_assoc (map channel_of t.unsubs) xs ys;
  copies_added = λ c h. omega (arith, a.copies_added c h, b.copies_added c h);
  still_started = b.still_started ∙ a.still_started;
}

Adds-tasks :
    (tasks : List BaseTask) (t : EventTrigger) → Adds (declared tasks) t (subscribe_tasks tasks t)
unfolding subscribe_tasks declared
Adds-tasks [] t = Adds-none t
Adds-tasks (task ∷ tasks) t =
    let u = subscribe_channels task task.trigger_channels t in
    elim (Bool-cases (on_event task)) [
      | inl b ↦ rw b (
          Adds-both task.trigger_channels (declared tasks) t u (subscribe_tasks tasks u)
            (Adds-channels task task.trigger_channels t) (Adds-tasks tasks u))
      | inr b ↦ rw b (Adds-tasks tasks t)
    ]

if-true {ℓ} : {A : Type ℓ} (b : Bool) (x y : A) → b ≡ true → (if b then x else y) ≡ x
if-true true x y h = refl
if-true false x y h = absurd (ground arith)

refresh-started :
    (tasks : List BaseTask) (t : EventTrigger)
    → t.started ≡ true
    → refresh tasks t ≡ subscribe_tasks tasks (stop false t)
unfolding refresh
refresh-started tasks t h = if-true t.started (subscribe_tasks tasks (stop false t)) t h

-- A refresh of a trigger that has started leaves it with one subscription for each channel that
-- each event task declares, in order. On the bus every handler keeps the subscriptions that are not
-- the trigger's own, and the trigger's old ones give way to its new ones.
pub refresh_lem :
    (tasks : List BaseTask) (t : EventTrigger)
    → t.started ≡ true
    → (map channel_of (refresh tasks t).unsubs ≡ declared tasks)
      × ((c : String) (h : ℕ)
          → copies c h (refresh tasks t).bus
            ≡ (copies c h t.bus - owned c h t.unsubs) + owned c h (refresh tasks t).unsubs)
unfolding stop owned
refresh_lem tasks t started =
    let a = Adds-tasks tasks (stop false t) in
    rw (refresh-started tasks t started) (
      a.channels_added,
      λ c h. omega (arith, a.copies_added c h, unsubscribe_all-copies c h t.unsubs t.bus),
    )

-- A second refresh of a started trigger subscribes to the same channels in the same order as the
-- first, whatever function objects it makes.
pub refresh-refresh :
    (tasks : List BaseTask) (t : EventTrigger)
    → t.started ≡ true
    → map channel_of (refresh tasks (refresh tasks t)).unsubs
      ≡ map channel_of (refresh tasks t).unsubs
unfolding stop
refresh-refresh tasks t h =
    let again : (refresh tasks t).started ≡ true =
      ap (λ u. u.started) (refresh-started tasks t h)
      ∙ (Adds-tasks tasks (stop false t)).still_started
      ∙ h in
    (refresh_lem tasks (refresh tasks t) again).0 ∙ sym (refresh_lem tasks t h).0
