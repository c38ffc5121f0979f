-- ===== src/Events.antt =====
-- The event bus (events/event_bus.py). A handler is the number of the subscription's function
-- object, so that two handlers are equal when they are the same object; what it does when it is
-- called is a parameter.
use second_brain_art.Common.{
  ℕ, ◌≡◌, ap, ◌∙◌, ◌+◌, ◌-◌, refl, Bool, true, false, not, ◌&&◌, Option, none, some, List, [], ◌∷◌,
  ◌++◌, String, str_eq, eq_iff, ◌==◌, if◌then◌else◌, arith,
}
use second_brain_art.Python.Dict.{Dict, lookup, insert, lookup-insert}

-- `_subs`
abbrev pub Bus : Type 0
Bus = Dict (List ℕ)

abbrev pub handlers_in : Option (List ℕ) → List ℕ
handlers_in none = []
handlers_in (some handlers) = handlers

-- `_subs.get(channel, [])`
unfoldable pub handlers_at : String → Bus → List ℕ
handlers_at channel bus = handlers_in (lookup channel bus)

unfoldable pub subscribe : String → ℕ → Bus → Bus
subscribe channel handler bus = insert channel (handlers_at channel bus ++ (handler ∷ [])) bus

-- `list.remove`, after the test that the handler is there
unfoldable pub remove_first : ℕ → List ℕ → List ℕ
remove_first handler [] = []
remove_first handler (h ∷ hs) =
    let rest = remove_first handler hs in if h == handler then hs else h ∷ rest

abbrev pub unsubscribe_in : Option (List ℕ) → String → ℕ → Bus → Bus
unsubscribe_in none channel handler bus = bus
unsubscribe_in (some handlers) channel handler bus =
    insert channel (remove_first handler handlers) bus

-- the function that `subscribe` returns
unfoldable pub unsubscribe : String → ℕ → Bus → Bus
unsubscribe channel handler bus = unsubscribe_in (lookup channel bus) channel handler bus

abbrev pub no_handlers : List ℕ → Bool
no_handlers [] = true
no_handlers (h ∷ hs) = false

unfoldable pub has_subscribers : String → Bus → Bool
has_subscribers channel bus = not (no_handlers (handlers_at channel bus))

-- `S` is the state that the handlers share, and `call` runs one of them: the Boolean says that it
-- raised.
module _ {ℓ} {S : Type ℓ} {P : Type ℓ} (call : ℕ → P → S → S × Bool) where
  -- The loop of `emit`: an exception of a handler is logged, and the loop goes on.
  unfoldable pub call_all : List ℕ → P → S → S
  call_all [] payload s = s
  call_all (h ∷ hs) payload s = call_all hs payload (call h payload s).0

  unfoldable pub emit : Bus → String → P → S → S
  emit bus channel payload s = call_all (handlers_at channel bus) payload s

  -- `request`: `answered` says that the reply came within the timeout, `result` reads `result[0]`.
  unfoldable pub request {κ} :
      {R : Type κ} → (S → Bool) → (S → Option R) → Bus → String → P → S → Option R × S
  request answered result bus channel payload s =
      let after = emit bus channel payload s in
      if has_subscribers channel bus
      then (if answered after then result after else none, after)
      else (none, s)

-- How often a handler is subscribed to a channel.
unfoldable pub count : ℕ → List ℕ → ℕ
count handler [] = 0
count handler (h ∷ hs) = (if h == handler then 1 else 0) + count handler hs

abbrev pub copies : String → ℕ → Bus → ℕ
copies channel handler bus = count handler (handlers_at channel bus)

abbrev pub matches : String → ℕ → String → ℕ → ℕ
matches c h channel handler = if str_eq c channel && h == handler then 1 else 0

count-if :
    (b : Bool) (handler : ℕ) (hs : List ℕ) (o : Option (List ℕ))
    → count handler (handlers_in (if b then some hs else o))
      ≡ (if b then count handler hs else count handler (handlers_in o))
count-if true handler hs o = refl
count-if false handler hs o = refl

copies-insert :
    (c channel : String) (handler : ℕ) (hs : List ℕ) (bus : Bus)
    → copies c handler (insert channel hs bus)
      ≡ (if str_eq channel c then count handler hs else copies c handler bus)
unfolding handlers_at
copies-insert c channel handler hs bus =
    ap (λ o. count handler (handlers_in o)) (lookup-insert channel c hs bus)
    ∙ count-if (str_eq channel c) handler hs (lookup c bus)

count-append :
    (handler : ℕ) (xs ys : List ℕ) → count handler (xs ++ ys) ≡ count handler xs + count handler ys
unfolding count
count-append handler [] ys = omega arith
count-append handler (x ∷ xs) ys = omega (arith, count-append handler xs ys)

count-remove :
    (handler h : ℕ) (hs : List ℕ)
    → count handler (remove_first h hs) ≡ count handler hs - (if h == handler then 1 else 0)
unfolding count remove_first
count-remove handler h [] = ground arith
count-remove handler h (x ∷ xs) = ground (arith, count-remove handler h xs)

-- A subscription adds one copy of its handler to its channel, and changes nothing else.
pub subscribe-copies :
    (c : String) (handler : ℕ) (channel : String) (h : ℕ) (bus : Bus)
    → copies c handler (subscribe channel h bus)
      ≡ copies c handler bus + matches channel h c handler
unfolding subscribe count
subscribe-copies c handler channel h bus = ground (
  arith,
  copies-insert c channel handler (handlers_at channel bus ++ (h ∷ [])) bus,
  count-append handler (handlers_at channel bus) (h ∷ []),
  eq_iff channel c,
)

unsubscribe_in-copies :
    (o : Option (List ℕ)) (c : String) (handler : ℕ) (channel : String) (h : ℕ) (bus : Bus)
    → lookup channel bus ≡ o
    → copies c handler (unsubscribe_in o channel h bus)
      ≡ copies c handler bus - matches channel h c handler
unfolding handlers_at count
unsubscribe_in-copies none c handler channel h bus e =
    ground (arith, eq_iff channel c, ap handlers_in e)
unsubscribe_in-copies (some hs) c handler channel h bus e = ground (
  arith,
  copies-insert c channel handler (remove_first h hs) bus,
  count-remove handler h hs,
  eq_iff channel c,
  ap (λ o. count handler (handlers_in o)) e,
)

-- Unsubscribing takes away one copy of the handler from its channel, if there is one, and changes
-- nothing else.
pub unsubscribe-copies :
    (c : String) (handler : ℕ) (channel : String) (h : ℕ) (bus : Bus)
    → copies c handler (unsubscribe channel h bus)
      ≡ copies c handler bus - matches channel h c handler
unfolding unsubscribe
unsubscribe-copies c handler channel h bus =
    unsubscribe_in-copies (lookup channel bus) c handler channel h bus refl
