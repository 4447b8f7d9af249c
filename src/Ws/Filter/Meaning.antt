-- ===== src/Ws/Filter/Meaning.antt =====
-- src/routes/ws/filter.rs: the set of subscriptions seen as a predicate on events.
use ovp_data_api.Base.{
  ℤ, int_eq_iff, Text, text_eq_iff, Uuid, Bool, true, not, ◌&&◌, ◌||◌, Option, none, some, List, [],
  ◌∷◌, any, delete, ◌≡◌, refl, arith, ap,
}
use ovp_data_api.Events.{Event, name}
use ovp_data_api.Ws.Filter.{
  Filter, Subscription, SubscriptionSet, subscription_eq, insert, subscribe, contains, unsubscribe,
  filter_accepts, subscription_matches, matches,
}

subscription_eq_sound :
    (g g' : Option ℤ) (i i' : Option Uuid) (t t' : Text)
    → subscription_eq
        (record { event = t; filter = record { guild = g; session = i } })
        (record { event = t'; filter = record { guild = g'; session = i' } })
      ≡ true
    → (t ≡ t') × (g ≡ g') × (i ≡ i')
unfolding subscription_eq
subscription_eq_sound none none none none t t' h = ground (arith, text_eq_iff t t')
subscription_eq_sound none none (some i) (some i') t t' h = ground (arith, text_eq_iff t t')
subscription_eq_sound (some g) (some g') none none t t' h =
    ground (arith, text_eq_iff t t', int_eq_iff g g')
subscription_eq_sound (some g) (some g') (some i) (some i') t t' h =
    ground (arith, text_eq_iff t t', int_eq_iff g g')
subscription_eq_sound _ _ _ _ t t' h = ground arith

subscription_eq-matches :
    (e : Event) (s t : Subscription)
    → subscription_eq s t ≡ true
    → subscription_matches e s ≡ subscription_matches e t
unfolding subscription_matches
subscription_eq-matches e s t h =
    let (p, q, r) =
      subscription_eq_sound s.filter.guild t.filter.guild s.filter.session t.filter.session s.event
        t.event h in
    rw (p, q, r)

any-equal :
    (e : Event) (s : Subscription) (l : List Subscription)
    → any (subscription_eq s) l ≡ true
    → subscription_matches e s ≡ true
    → any (subscription_matches e) l ≡ true
any-equal e s [] h m = cc
any-equal e s (t ∷ l) h m = ground (arith, subscription_eq-matches e s t, any-equal e s l)

-- An insertion adds what its subscription matches, whether or not it was there.
any-insert :
    (e : Event) (s : Subscription) (l : List Subscription)
    → any (subscription_matches e) (insert s l)
      ≡ (subscription_matches e s || any (subscription_matches e) l)
unfolding insert
any-insert e s l = ground (arith, any-equal e s l)

-- What a subscription to `names` under `f` asks for.
abbrev pub asks : List Text → Filter → Event → Bool
asks names f e = contains names (name e) && filter_accepts f.guild f.session e

-- After a subscription exactly those events match that matched before or that it asks for.
pub matches-subscribe :
    (set : SubscriptionSet) (names : List Text) (f : Filter) (e : Event)
    → matches (subscribe set names f) e ≡ (matches set e || asks names f e)
unfolding matches subscribe contains
matches-subscribe set [] f e = ground arith
matches-subscribe set (n ∷ names) f e =
    rw (matches-subscribe (record { subs = insert s set.subs }) names f e, any-insert e s set.subs)
      (unfold subscription_matches in ground arith)
  where
    s : Subscription
    s = record { event = n; filter = f }

any-unsubscribed :
    (names : List Text) (e : Event) (l : List Subscription)
    → any (subscription_matches e) (delete (λ s. contains names s.event) l)
      ≡ (any (subscription_matches e) l && not (contains names (name e)))
unfolding delete subscription_matches
any-unsubscribed names e [] = refl
any-unsubscribed names e (s ∷ l) = ground (
  arith,
  any-unsubscribed names e l,
  text_eq_iff s.event (name e),
  ap (contains names) ((text_eq_iff s.event (name e)).0 _),
)

-- After an unsubscription exactly those events match that matched before and that it does not name.
pub matches-unsubscribe :
    (set : SubscriptionSet) (names : List Text) (e : Event)
    → matches (unsubscribe set names) e ≡ (matches set e && not (contains names (name e)))
unfolding matches unsubscribe
matches-unsubscribe set names e = any-unsubscribed names e set.subs
