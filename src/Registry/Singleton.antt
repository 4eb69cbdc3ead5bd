-- ===== src/Registry/Singleton.antt =====
-- `GraphRegistry.get_instance` and `reset`: the instance of the class, made on first use.
use langgraph_temporal.Prelude.{◌≡◌, refl, Option, none, some}
use langgraph_temporal.Registry.{Registry, empty_registry}

-- The class attribute `_instance`.
module _ {G : Type 0} where
  -- The registry that is returned, and the attribute after the call.
  unfoldable pub get_instance : Option (Registry G) → Registry G × Option (Registry G)
  get_instance none = (empty_registry, some empty_registry)
  get_instance (some r) = (r, some r)

  -- A second call returns the instance of the first.
  pub get_instance_twice :
      (c : Option (Registry G)) → get_instance (get_instance c).1 ≡ get_instance c
  unfolding get_instance
  get_instance_twice none = refl
  get_instance_twice (some r) = refl
