-- ===== src/Ws/Filter.antt =====
-- src/routes/ws/filter.rs: what a subscriber has asked for, and which events match it.
pub mod Meaning
use ovp_data_api.Base.{
  ℤ, int_eq, Text, text_eq, Uuid, Bool, true, false, not, ◌&&◌, ◌==◌, Option, none, some, List, [],
  ◌∷◌, any, if◌then◌else◌, delete,
}
use ovp_data_api.Events.{Event, name, guild_id, session_id}

pub record Filter : Type 0 where
  pub guild : Option ℤ
  pub session : Option Uuid

pub record Subscription : Type 0 where
  pub event : Text
  pub filter : Filter

abbrev pub option_eq {ℓ} : {A : Type ℓ} → (A → A → Bool) → Option A → Option A → Bool
option_eq eq none none = true
option_eq eq none (some b) = false
option_eq eq (some a) none = false
option_eq eq (some a) (some b) = eq a b

-- `==` of the derived PartialEq
unfoldable pub subscription_eq : Subscription → Subscription → Bool
subscription_eq s t =
    text_eq s.event t.event
    && option_eq int_eq s.filter.guild t.filter.guild
    && option_eq (λ a b. a == b) s.filter.session t.filter.session

-- The HashSet, as a list of its elements.
pub record SubscriptionSet : Type 0 where
  pub subs : List Subscription

unfoldable pub empty : SubscriptionSet
empty = record { subs = [] }

-- HashSet::insert
unfoldable pub insert : Subscription → List Subscription → List Subscription
insert s l = if any (subscription_eq s) l then l else s ∷ l

unfoldable pub subscribe : SubscriptionSet → List Text → Filter → SubscriptionSet
subscribe set [] f = set
subscribe set (event ∷ rest) f =
    subscribe (record { subs = insert (record { event = event; filter = f }) set.subs }) rest f

unfoldable pub contains : List Text → Text → Bool
contains names n = any (λ m. text_eq m n) names

unfoldable pub unsubscribe : SubscriptionSet → List Text → SubscriptionSet
unfolding contains
unsubscribe set event_names = record { subs = delete (λ s. contains event_names s.event) set.subs }

-- `active` lists the elements in no particular order
unfoldable pub active : SubscriptionSet → List Subscription
active set = set.subs

unfoldable pub filter_accepts : Option ℤ → Option Uuid → Event → Bool
filter_accepts none none e = true
filter_accepts (some g) none e = int_eq g (guild_id e)
filter_accepts none (some sid) e = sid == session_id e
filter_accepts (some g) (some sid) e = int_eq g (guild_id e) && sid == session_id e

unfoldable pub subscription_matches : Event → Subscription → Bool
unfolding filter_accepts
subscription_matches e s =
    if not (text_eq s.event (name e))
    then false
    else filter_accepts s.filter.guild s.filter.session e

unfoldable pub matches : SubscriptionSet → Event → Bool
unfolding subscription_matches
matches set e = any (subscription_matches e) set.subs
