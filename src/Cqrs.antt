-- ===== src/Cqrs.antt =====
-- `Dispatcher` (pdip/cqrs/dispatcher.py).
use pdip.Prelude.{
  ◌≡◌, ◌⊎◌, inl, inr, refl, Bool, true, false, Option, none, some, List, [], ◌∷◌, ◌++◌,
  if◌then◌else◌,
}
use pdip.Prelude.Results.{Result, ok, err, and_then}
use pdip.Parallel.Domain.{Error, other}

-- What `isinstance` says of a dispatched object.
pub data Kind : Type 0 where
  query command neither : Kind

-- What the dispatcher calls on the world `W`, which has the classes that are loaded: the import of
-- the module of a handler, whose exceptions are dropped, the subclasses of the handler type of a
-- kind, `handler_type[cq.__class__] == handler_class.__orig_bases__[0]`, the service provider,
-- which may give None, and the handlers' `handle`.
pub record Handlers (W C H I R : Type 0) : Type 0 where
  pub import_handler : C → W → W
  pub subclasses : Kind → W → List H
  pub handles : Kind → H → C → Bool
  pub provide : H → W → Result Error (Option I) × W
  pub handle : I → C → W → Result Error R × W

module _ {W C H I R : Type 0} (handlers : Handlers W C H I R) where
  -- The loop over the subclasses.
  unfoldable pub first_handler : Kind → C → List H → W → Result Error (Option I) × W
  first_handler kind cq [] w = (ok none, w)
  first_handler kind cq (h ∷ classes) w =
      let rest = first_handler kind cq classes w in
      if handlers.handles kind h cq then handlers.provide h w else rest

  unfoldable pub find_handler : Kind → C → W → Result Error (Option I) × W
  unfolding first_handler
  find_handler kind cq w =
      let loaded = handlers.import_handler cq w in
      first_handler kind cq (handlers.subclasses kind loaded) loaded

  -- `if isinstance(cq, IQuery): return result`
  unfoldable pub answer : Kind → R → Option R
  answer query r = some r
  answer command r = none
  answer neither r = none

  unfoldable pub handle_with : Kind → C → Option I → W → Result Error (Option R) × W
  unfolding answer
  handle_with kind cq none w = (err (other "Handler not founded"), w)
  handle_with kind cq (some i) w =
      and_then (handlers.handle i cq w) (λ r w'. (ok (answer kind r), w'))

  unfoldable pub dispatch_as : Kind → C → W → Result Error (Option R) × W
  unfolding find_handler handle_with
  dispatch_as kind cq w = and_then (find_handler kind cq w) (λ i w'. handle_with kind cq i w')

  unfoldable pub dispatch : Kind → C → W → Result Error (Option R) × W
  unfolding dispatch_as
  dispatch neither cq w = (err (other "Command or query not found"), w)
  dispatch query cq w = dispatch_as query cq w
  dispatch command cq w = dispatch_as command cq w

  -- No class of the list handles `cq`.
  abbrev pub NoneHandles : Kind → C → List H → Type 0
  NoneHandles kind cq [] = Unit
  NoneHandles kind cq (h ∷ classes) =
      (handlers.handles kind h cq ≡ false) × NoneHandles kind cq classes

  first_handler-first :
      (kind : Kind) (cq : C) (before after : List H) (h : H) (w : W)
      → NoneHandles kind cq before
      → handlers.handles kind h cq ≡ true
      → first_handler kind cq (before ++ h ∷ after) w ≡ handlers.provide h w
  unfolding first_handler
  first_handler-first kind cq [] after h w n e = rw e refl
  first_handler-first kind cq (b ∷ before) after h w (x, n) e =
      rw x (first_handler-first kind cq before after h w n e)

  first_handler-none :
      (kind : Kind) (cq : C) (classes : List H) (w : W)
      → NoneHandles kind cq classes
      → first_handler kind cq classes w ≡ (ok none, w)
  unfolding first_handler
  first_handler-none kind cq [] w n = refl
  first_handler-none kind cq (h ∷ classes) w (x, n) = rw x (first_handler-none kind cq classes w n)

  -- A query has the result of its handler, anything else None.
  abbrev pub given : Kind → R → Option R
  given kind r = elim kind [ query ↦ some r | command ↦ none | neither ↦ none ]

  dispatch_as-first :
      (cq : C) (before after : List H) (h : H) (i : I) (w w' : W) (kind : Kind)
      → handlers.subclasses kind (handlers.import_handler cq w) ≡ before ++ h ∷ after
      → NoneHandles kind cq before
      → handlers.handles kind h cq ≡ true
      → handlers.provide h (handlers.import_handler cq w) ≡ (ok (some i), w')
      → dispatch_as kind cq w ≡ and_then (handlers.handle i cq w') (λ r v. (ok (answer kind r), v))
  unfolding dispatch_as find_handler handle_with and_then
  dispatch_as-first cq before after h i w w' kind c n e p =
      rw (c, first_handler-first kind cq before after h (handlers.import_handler cq w) n e, p) refl

  -- Where the classes of a query's or a command's kind have, after the import of its module, one
  -- that handles it and the service provider gives an instance of the first such class, that
  -- instance handles it: a query returns the handler's result, a command None, and what the handler
  -- raises is raised.
  pub dispatch-first :
      (cq : C) (before after : List H) (h : H) (i : I) (w w' : W) (kind : Kind)
      → (kind ≡ query) ⊎ (kind ≡ command)
      → handlers.subclasses kind (handlers.import_handler cq w) ≡ before ++ h ∷ after
      → NoneHandles kind cq before
      → handlers.handles kind h cq ≡ true
      → handlers.provide h (handlers.import_handler cq w) ≡ (ok (some i), w')
      → dispatch kind cq w ≡ and_then (handlers.handle i cq w') (λ r v. (ok (given kind r), v))
  unfolding dispatch answer
  dispatch-first cq before after h i w w' query k c n e p =
      dispatch_as-first cq before after h i w w' query c n e p
  dispatch-first cq before after h i w w' command k c n e p =
      dispatch_as-first cq before after h i w w' command c n e p
  dispatch-first cq before after h i w w' neither k c n e p = elim k [ inl x ↦ cc | inr x ↦ cc ]

  -- Where no class of its kind handles a query or a command after the import of its module, the
  -- dispatch raises, and the world is what the import leaves.
  pub dispatch-none :
      (cq : C) (w : W) (kind : Kind)
      → (kind ≡ query) ⊎ (kind ≡ command)
      → NoneHandles kind cq (handlers.subclasses kind (handlers.import_handler cq w))
      → dispatch kind cq w ≡ (err (other "Handler not founded"), handlers.import_handler cq w)
  unfolding dispatch dispatch_as find_handler handle_with and_then
  dispatch-none cq w query k n =
      let loaded = handlers.import_handler cq w in
      rw (first_handler-none query cq (handlers.subclasses query loaded) loaded n) refl
  dispatch-none cq w command k n =
      let loaded = handlers.import_handler cq w in
      rw (first_handler-none command cq (handlers.subclasses command loaded) loaded n) refl
  dispatch-none cq w neither k n = elim k [ inl x ↦ cc | inr x ↦ cc ]
