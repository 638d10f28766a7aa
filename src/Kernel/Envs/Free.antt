-- ===== src/Kernel/Envs/Free.antt =====
-- kern/env.c: `env_free`, which gives an environment's memory back.
use csdi_jos.Common.{ℕ, zero, suc, none, some, if◌then◌else◌, same_ptr}
use csdi_jos.Kernel.State.{
  ret, panic, fault, K, pure, ◌>>=◌, ◌>>◌, get, put, set_env, set_word, status_free,
}
use csdi_jos.Kernel.State.Layout.{u_top, pdx, pgaddr, pte_p, pte_frame}
use csdi_jos.Kernel.Pages.{kaddr, page_decref}
use csdi_jos.Kernel.Vm.{pa2page, page_remove}

-- The inner loop of `env_free`: the entries from `pteno` on, `n` of them.
unfoldable pub unmap_table : (e pdeno table pteno n : ℕ) → K (Unit {0})
unfolding page_remove
unmap_table e pdeno table pteno zero k = ret tt k
unmap_table e pdeno table pteno (suc n) k =
    (do
      if pte_p (k.frames table pteno)
          then page_remove (k.envs e).env_pgdir (pgaddr pdeno pteno)
          else pure tt
      unmap_table e pdeno table (suc pteno) n)
      k

-- `e->env_pgdir[pdeno] = 0`
unfoldable pub clear_pde : (e pdeno : ℕ) → K (Unit {0})
clear_pde e pdeno k = elim (k.envs e).env_pgdir [
  | none ↦ fault
  | some d ↦ ret tt (set_word d pdeno 0 k)
]

-- The outer loop: the directory's entries from `pdeno` on, `n` of them.
unfoldable pub free_tables : (e pdeno n : ℕ) → K (Unit {0})
unfolding kaddr unmap_table clear_pde pa2page page_decref
free_tables e pdeno zero k = ret tt k
free_tables e pdeno (suc n) k = elim (k.envs e).env_pgdir [
  | none ↦ fault
  | some d ↦
      (do
        if pte_p (k.frames d pdeno)
            then (do
              table ← kaddr (pte_frame (k.frames d pdeno))
              unmap_table e pdeno table 0 1024
              clear_pde e pdeno
              page ← pa2page table
              page_decref page)
            else pure tt
        free_tables e (suc pdeno) n)
        k
]

-- The last lines of `env_free`.
unfoldable pub release_env : (e : ℕ) → K (Unit {0})
unfolding pa2page page_decref
release_env e k = elim (k.envs e).env_pgdir [
  | none ↦ panic
  | some d ↦
      (do
        put (set_env e (record (k.envs e) { env_pgdir = none }) k)
        page ← pa2page d
        page_decref page
        k' ← get
        put
            (record (set_env e
              (record (k'.envs e) { env_status = status_free; env_link = k'.env_free_list }) k') {
                env_free_list = some e;
              }))
        k
]

unfoldable pub env_free : (e : ℕ) → K (Unit {0})
unfolding free_tables release_env
env_free e k =
    (do
      put (if same_ptr k.curenv (some e) then record k { cr3 = k.kern_pgdir } else k)
      free_tables e 0 (pdx u_top)
      release_env e)
      k
