-- ===== src/Detection/Absence/Loop.antt =====
-- `retainedVerificationLiveCompatible` of internal/detection/detectors.go as a loop over the events.
use mathlib.Core.Path.{subst}
use belay_engine.Prelude.{
  Text, text, Bool, true, false, ◌&&◌, ◌||◌, not, List, [], ◌∷◌, ◌==◌, if◌then◌else◌, any, all, ◌≡◌,
  ◌≢◌, refl, sym, ap, ◌∙◌, ◌↔◌, inl, inr, arith, Bool-cases, text_eq→eq, nat_eq, list_eq,
}
use belay_engine.Detection.Events.{PreparedEvent, event_type}
use belay_engine.Detection.Absence.{
  from_hook, has_depth, known_harness, is_mutation, is_session_end, Live, observe, with_harness,
  live_compatible,
}
use belay_engine.Detection.Absence.Agents.{Starts, clashes, Starts-agent, agent-Starts}

-- A hook saw a change of a file at the depth of tool calls.
abbrev pub covers_mutation : PreparedEvent → Bool
covers_mutation item = from_hook item && is_mutation item && has_depth "tool_call" item

-- A hook saw an end of the session at the depth of its lifecycle.
abbrev pub covers_end : PreparedEvent → Bool
covers_end item = from_hook item && is_session_end item && has_depth "lifecycle" item

or-false : (b : Bool) → (b || false) ≡ b
or-false true = refl
or-false false = refl

-- The `switch` of `observe`, over its tests.
abbrev switched : Live → Bool → Bool → Bool → Bool → Bool → Live
switched v hook mutates ends deep whole =
    if not hook
    then v
    else if mutates
    then record v { mutation = v.mutation || deep }
    else if ends
    then record v { terminal = v.terminal || whole }
    else v

switched_lem :
    (v : Live) (hook mutates ends deep whole : Bool)
    → (ends ≡ true → mutates ≡ false)
    → ((switched v hook mutates ends deep whole).harness ≡ v.harness)
      × ((switched v hook mutates ends deep whole).mutation
          ≡ (v.mutation || hook && mutates && deep))
      × ((switched v hook mutates ends deep whole).terminal ≡ (v.terminal || hook && ends && whole))
switched_lem v false m e d w k = (refl, sym (or-false v.mutation), sym (or-false v.terminal))
switched_lem v true true true d w k = cc (k refl)
switched_lem v true true false d w k = (refl, refl, sym (or-false v.terminal))
switched_lem v true false true d w k = (refl, sym (or-false v.mutation), refl)
switched_lem v true false false d w k = (refl, sym (or-false v.mutation), sym (or-false v.terminal))

end_not_mutation : (item : PreparedEvent) → is_session_end item ≡ true → is_mutation item ≡ false
end_not_mutation item h =
    let e = text_eq→eq (event_type item) (text "session.end") h in
    ap (λ t. t == text "file.write" || t == text "file.delete") e

observe_lem :
    (v : Live) (item : PreparedEvent)
    → ((observe v item).harness ≡ v.harness)
      × ((observe v item).mutation ≡ (v.mutation || covers_mutation item))
      × ((observe v item).terminal ≡ (v.terminal || covers_end item))
unfolding observe
observe_lem v item =
    switched_lem v (from_hook item) (is_mutation item) (is_session_end item)
      (has_depth "tool_call" item) (has_depth "lifecycle" item) (end_not_mutation item)

abbrev pub from_harness : Text → List PreparedEvent → Bool
from_harness harness events = any (λ item. item.event.source.agent == harness) events

-- The events go on from `v` to a session that is covered live for the harness.
pub record Goes (harness : Text) (v : Live) (events : List PreparedEvent) : Type 0 where
  pub live : any (λ item. item.historical) events ≡ false
  pub agents :
      all (λ item. item.event.source.agent == [] || item.event.source.agent == harness) events
      ≡ true
  pub starts : Starts v.harness harness (from_harness harness events)
  pub mutation : (v.mutation || any covers_mutation events) ≡ true
  pub terminal : (v.terminal || any covers_end events) ≡ true

with_harness_lem :
    (v : Live) (agent : Text)
    → ((with_harness v agent).harness ≡ (if v.harness == [] then agent else v.harness))
      × ((with_harness v agent).mutation ≡ v.mutation)
      × ((with_harness v agent).terminal ≡ v.terminal)
with_harness_lem v agent = elim (Bool-cases (v.harness == [])) [
  | inl t ↦ rw t (refl, refl, refl)
  | inr f ↦ rw f (refl, refl, refl)
]

-- The variables behind one event.
stepped :
    (v : Live) (item : PreparedEvent)
    → let next = observe (with_harness v item.event.source.agent) item in
      (next.harness ≡ (if v.harness == [] then item.event.source.agent else v.harness))
      × (next.mutation ≡ (v.mutation || covers_mutation item))
      × (next.terminal ≡ (v.terminal || covers_end item))
stepped v item =
    let known = with_harness v item.event.source.agent in
    let (h, m, t) = observe_lem known item in
    let (h', m', t') = with_harness_lem v item.event.source.agent in
    (h ∙ h', m ∙ ap (λ b. b || covers_mutation item) m', t ∙ ap (λ b. b || covers_end item) t')

Goes-cons :
    (harness : Text) (v : Live) (item : PreparedEvent) (items : List PreparedEvent)
    → harness ≢ []
    → item.historical ≡ false
    → clashes v.harness item.event.source.agent ≡ false
    → Goes harness (observe (with_harness v item.event.source.agent) item) items
    → Goes harness v (item ∷ items)
Goes-cons harness v item items some_harness live clear g =
    let (h, m, t) = stepped v item in
    let (agrees, starts) =
      Starts-agent v.harness item.event.source.agent harness (from_harness harness items)
        some_harness clear
        (subst (λ known. Starts known harness (from_harness harness items)) h g.starts) in
    record {
      live = ground (arith, live, g.live);
      agents = ground (arith, agrees, g.agents);
      starts = starts;
      mutation = ground (arith, m, g.mutation);
      terminal = ground (arith, t, g.terminal);
    }

Goes-tail :
    (harness : Text) (v : Live) (item : PreparedEvent) (items : List PreparedEvent)
    → harness ≢ []
    → Goes harness v (item ∷ items)
    → (item.historical ≡ false)
      × (clashes v.harness item.event.source.agent ≡ false)
      × Goes harness (observe (with_harness v item.event.source.agent) item) items
Goes-tail harness v item items some_harness g =
    let (h, m, t) = stepped v item in
    let (clear, starts) =
      agent-Starts v.harness item.event.source.agent harness (from_harness harness items)
        some_harness (ground (arith, g.agents)) g.starts in
    (
      ground (arith, g.live),
      clear,
      record {
        live = ground (arith, g.live);
        agents = ground (arith, g.agents);
        starts = subst (λ known. Starts known harness (from_harness harness items)) (sym h) starts;
        mutation = ground (arith, m, g.mutation);
        terminal = ground (arith, t, g.terminal);
      },
    )

pub known_harness-nonempty : (harness : Text) → known_harness harness ≡ true → harness ≢ []
known_harness-nonempty harness k p = cc (sym k ∙ ap known_harness p)

passed : (b x : Bool) → (if b then false else x) ≡ true → (b ≡ false) × (x ≡ true)
passed true x h = cc h
passed false x h = (refl, h)

pass : (b x : Bool) → b ≡ false → x ≡ true → (if b then false else x) ≡ true
pass true x h k = cc h
pass false x h k = k

Starts-end : (known harness : Text) → Starts known harness false → known ≡ harness
Starts-end known harness (inl p) = p
Starts-end known harness (inr (_, l)) = cc l

pub live_compatible_iff :
    (v : Live) (events : List PreparedEvent)
    → (live_compatible v events ≡ true)
      ↔ ((harness : Text) × (known_harness harness ≡ true) × Goes harness v events)
unfolding live_compatible
live_compatible_iff v [] = (
  λ c. (
    v.harness,
    ground (arith, c),
    record {
      live = refl;
      agents = refl;
      starts = inl refl;
      mutation = ground (arith, c);
      terminal = ground (arith, c);
    },
  ),
  λ (harness, k, g).
      let known =
        subst (λ h. known_harness h ≡ true) (sym (Starts-end v.harness harness g.starts)) k in
      ground (arith, known, g.mutation, g.terminal),
)
live_compatible_iff v (item ∷ items) = (
  λ c.
      let (live, c1) = passed item.historical _ c in
      let (clear, c2) = passed (clashes v.harness item.event.source.agent) _ c1 in
      let (harness, k, g) =
        (live_compatible_iff (observe (with_harness v item.event.source.agent) item) items).0 c2 in
      (harness, k, Goes-cons harness v item items (known_harness-nonempty harness k) live clear g),
  λ (harness, k, g).
      let (live, clear, rest) =
        Goes-tail harness v item items (known_harness-nonempty harness k) g in
      let later =
        (live_compatible_iff (observe (with_harness v item.event.source.agent) item) items).1
          (harness, k, rest) in
      pass item.historical _ live (pass (clashes v.harness item.event.source.agent) _ clear later),
)
