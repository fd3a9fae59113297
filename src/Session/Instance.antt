-- ===== src/Session/Instance.antt =====
-- The static callbacks of VhostController (src/vhost_controller.cpp) and the pointer `instance_`
-- through which they find the object, against the life of that object. DPDK makes its callbacks
-- from the start of the driver until the call that unregisters it has returned.
use vtb.Prelude.{
  ◌≡◌, refl, subst, Option, none, some, Result, ok, throws, undefined, ◌>>=◌, List, [], ◌∷◌,
}
use vtb.Vhost.{Vhost}
use vtb.Session.{Callback, perform, perform_all}

-- `cb_new_device`, `cb_destroy_device` and `cb_vring_state_changed`: the null pointer is `none`.
unfoldable pub dispatch : Callback → Option Vhost → Result (Option Vhost)
dispatch c none = undefined
dispatch c (some v) = do after ← perform c v; ok (some after)

pub dispatch_all : List Callback → Option Vhost → Result (Option Vhost)
dispatch_all [] i = ok i
dispatch_all (c ∷ cs) i = do after ← dispatch c i; dispatch_all cs after

-- Where the main thread is: before the constructor, behind it, behind `init`, behind each of the
-- calls of `start`, in the call of the destructor that unregisters the driver, behind it, behind
-- the clean-up, and at the end.
pub data Place : Type 0 where
  outside : Place
  built : Place
  ready : Place
  registered : Place
  called : Place
  serving : Place
  leaving : Place
  left : Place
  cleaned : Place
  over : Place

-- The moves that do not touch `instance_`. The destructor may come at any time.
pub data Moves : Place → Place → Type 0 where
  init : Moves built ready
  driver_register : Moves ready registered
  callback_register : Moves registered called
  driver_start : Moves called serving
  unregister : Moves serving leaving
  unregister_called : Moves called leaving
  unregister_registered : Moves registered leaving
  unregistered : Moves leaving left
  no_driver : Moves built left
  no_driver_ready : Moves ready left
  cleanup : Moves left cleaned

-- DPDK makes callbacks.
abbrev pub IsOpen : Place → Type 0
IsOpen serving = Unit {0}
IsOpen leaving = Unit {0}
IsOpen _ = ⊥

pub record Life : Type 0 where
  pub place : Place
  pub instance_ptr : Option Vhost

abbrev pub at : Place → Option Vhost → Life
at p i = record { place = p; instance_ptr = i }

pub data Step : Life → Life → Type 0 where
  construct : (v : Vhost) → Step (at outside none) (at built (some v))
  move : {p q : Place} (i : Option Vhost) → Moves p q → Step (at p i) (at q i)
  callback :
      {p : Place} {i after : Option Vhost} (c : Callback)
      → IsOpen p
      → dispatch c i ≡ ok after
      → Step (at p i) (at p after)
  store_null : (i : Option Vhost) → Step (at cleaned i) (at over none)

pub data Reach (s : Life) : Life → Type 0 where
  here : Reach s s
  next : {t u : Life} → Reach s t → Step t u → Reach s u

abbrev pub IsThere : Option Vhost → Type 0
IsThere none = ⊥
IsThere (some v) = Unit {0}

-- The pointer is set exactly while the object is there.
Set : Place → Option Vhost → Type 0
Set outside i = i ≡ none
Set over i = i ≡ none
Set _ i = IsThere i

Set-Moves : {p q : Place} (i : Option Vhost) → Moves p q → Set p i → Set q i
unfolding Set
Set-Moves i init h = h
Set-Moves i driver_register h = h
Set-Moves i callback_register h = h
Set-Moves i driver_start h = h
Set-Moves i unregister h = h
Set-Moves i unregister_called h = h
Set-Moves i unregister_registered h = h
Set-Moves i unregistered h = h
Set-Moves i no_driver h = h
Set-Moves i no_driver_ready h = h
Set-Moves i cleanup h = h

ok-injective : (i j : Option Vhost) → ok i ≡ ok j → i ≡ j
ok-injective i j e = cc

-- What a callback leaves.
dispatch-IsThere : (c : Callback) (i after : Option Vhost) → dispatch c i ≡ ok after → IsThere after
unfolding dispatch
dispatch-IsThere c none after e = cc
dispatch-IsThere c (some v) after e = go (perform c v) e
  where
    go : (r : Result Vhost) → (r >>= λ w. ok (some w)) ≡ ok after → IsThere after
    go (ok w) e = subst IsThere (ok-injective (some w) after e) tt
    go (throws x) e = cc
    go undefined e = cc

Set-open : (p : Place) (i after : Option Vhost) → IsOpen p → IsThere after → Set p after
unfolding Set
Set-open serving i after o h = h
Set-open leaving i after o h = h
Set-open _ i after o h = absurd o

Step-Set : {s t : Life} → Step s t → Set s.place s.instance_ptr → Set t.place t.instance_ptr
Step-Set (construct v) h = unfold Set in tt
Step-Set (move i m) h = Set-Moves i m h
Step-Set (callback {p} {i} {after} c o e) h = Set-open p i after o (dispatch-IsThere c i after e)
Step-Set (store_null i) h = unfold Set in refl

abbrev pub at_first : Life
at_first = at outside none

Reach-Set : {s : Life} → Reach at_first s → Set s.place s.instance_ptr
Reach-Set here = unfold Set in refl
Reach-Set (next r st) = Step-Set st (Reach-Set r)

dispatch_all-some :
    (cs : List Callback) (v : Vhost)
    → dispatch_all cs (some v) ≡ (perform_all cs v >>= λ w. ok (some w))
unfolding dispatch_all dispatch perform_all
dispatch_all-some [] v = refl
dispatch_all-some (c ∷ cs) v = go (perform c v) (dispatch_all-some cs)
  where
    go :
        (r : Result Vhost)
        → ((w : Vhost) → dispatch_all cs (some w) ≡ (perform_all cs w >>= λ w. ok (some w)))
        → ((r >>= λ w. ok (some w)) >>= dispatch_all cs)
          ≡ ((r >>= perform_all cs) >>= λ w. ok (some w))
    go (ok w) rest = rest w
    go (throws e) rest = refl
    go undefined rest = refl

-- The callbacks work on the object; or on no object, which is undefined.
abbrev OnObject : List Callback → Option Vhost → Type 0
OnObject cs i =
    (v : Vhost) × (i ≡ some v) × (dispatch_all cs i ≡ (perform_all cs v >>= λ w. ok (some w)))

abbrev pub Served : List Callback → Place → Option Vhost → Type 0
Served cs serving i = OnObject cs i
Served cs leaving i = OnObject cs i
Served cs outside i = (c : Callback) → dispatch c i ≡ undefined
Served cs over i = (c : Callback) → dispatch c i ≡ undefined
Served cs _ i = Unit {0}

IsThere-OnObject : (cs : List Callback) (i : Option Vhost) → IsThere i → OnObject cs i
IsThere-OnObject cs none h = absurd h
IsThere-OnObject cs (some v) h = (v, refl, dispatch_all-some cs v)

none-undefined : (i : Option Vhost) → i ≡ none → (c : Callback) → dispatch c i ≡ undefined
unfolding dispatch
none-undefined none e c = refl
none-undefined (some v) e c = cc

Set-Served : (cs : List Callback) (p : Place) (i : Option Vhost) → Set p i → Served cs p i
unfolding Set
Set-Served cs serving i h = IsThere-OnObject cs i h
Set-Served cs leaving i h = IsThere-OnObject cs i h
Set-Served cs outside i h = none-undefined i h
Set-Served cs over i h = none-undefined i h
Set-Served cs built i h = tt
Set-Served cs ready i h = tt
Set-Served cs registered i h = tt
Set-Served cs called i h = tt
Set-Served cs left i h = tt
Set-Served cs cleaned i h = tt

-- In every order of the steps of the main thread and of the callbacks: whenever DPDK makes
-- callbacks, also while the destructor unregisters the driver, any sequence of them finds the
-- object through `instance_` and does what the member functions do on it; before the constructor
-- and behind the destructor every callback is undefined.
pub Reach-Served :
    (s : Life) (cs : List Callback) → Reach at_first s → Served cs s.place s.instance_ptr
Reach-Served s cs r = Set-Served cs s.place s.instance_ptr (Reach-Set r)
