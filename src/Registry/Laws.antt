-- ===== src/Registry/Laws.antt =====
-- Laws of `GraphRegistry` in langgraph/temporal/converter.py.
use langgraph_temporal.Prelude.{String, true, false, ◌≡◌, arith, ◌==◌, eq_iff}
use langgraph_temporal.Prelude.Dict
use langgraph_temporal.Prelude.Result.{ok, err, key_error}
use langgraph_temporal.Registry.{Registry, register, make_ref, lookup, unregister}

module _ {G : Type 0} where
  pub lookup-register :
      (name hex : String) (g : G) (r : Registry G) (ref : String)
      → lookup ref (register name hex g r).1
        ≡ elim (make_ref name hex == ref) [ true ↦ ok g | false ↦ lookup ref r ]
  unfolding lookup register
  lookup-register name hex g r ref = ground (arith, Dict.get-put r.graphs (make_ref name hex) ref g)

  pub lookup-unregister :
      (gone ref : String) (r : Registry G)
      → lookup ref (unregister gone r)
        ≡ elim (gone == ref) [ true ↦ err (key_error ref) | false ↦ lookup ref r ]
  unfolding lookup unregister
  lookup-unregister gone ref r = ground (arith, Dict.get-remove r.graphs gone ref)

  -- A graph registered under a fresh reference and removed again leaves every lookup as it was.
  pub unregister-register :
      (name hex : String) (g : G) (r : Registry G) (ref : String)
      → lookup (make_ref name hex) r ≡ err (key_error (make_ref name hex))
      → lookup ref (unregister (register name hex g r).0 (register name hex g r).1) ≡ lookup ref r
  unfolding register lookup unregister
  unregister-register name hex g r ref fresh = ground (
    arith,
    Dict.get-put r.graphs (make_ref name hex) ref g,
    Dict.get-remove (Dict.put r.graphs (make_ref name hex) g) (make_ref name hex) ref,
    eq_iff (make_ref name hex) ref,
  )
