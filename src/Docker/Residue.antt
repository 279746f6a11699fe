-- ===== src/Docker/Residue.antt =====
-- What a Run leaves among the containers.
use bclib.Base.{◌≡◌, false, String, List, [], ◌∷◌}
use bclib.Go.Result.{Result, ok, err}
use bclib.Go.Text.{Bytes}
use bclib.Docker.{Container}
use bclib.Docker.Removal.{IsDaemon, without_id}
use bclib.Docker.Params.{Config, config_of, DockerRunParams}
use bclib.Docker.Run.{Engine, failed, run_container}

-- What the daemon documents: a new container has a new id and is listed first. Where it is not to be
-- removed when it stops, starting it and waiting for its end change no list, and one that was waited
-- for has stopped, so that it is removed without force.
pub record IsEngine {W : Type 0} (e : Engine W) : Type 0 where
  pub is_daemon : IsDaemon e.daemon
  pub list-create :
      (c : Config) (name id : Bytes) (cs : List Container) (w w' : W)
      → e.container_create c name w ≡ ok (id, w')
      → e.daemon.container_list w ≡ ok cs
      → e.daemon.container_list w' ≡ ok (record { id = id; names = (b'/' ∷ name) ∷ [] } ∷ cs)
  pub fresh-create :
      (c : Config) (name id : Bytes) (cs : List Container) (w w' : W)
      → e.container_create c name w ≡ ok (id, w')
      → e.daemon.container_list w ≡ ok cs
      → without_id id cs ≡ cs
  pub list-start :
      (c : Config) (name id : Bytes) (w w₀ w₁ : W)
      → c.auto_remove ≡ false
      → e.container_create c name w ≡ ok (id, w₀)
      → e.container_start id w₀ ≡ ok w₁
      → e.daemon.container_list w₁ ≡ e.daemon.container_list w₀
  pub list-wait :
      (c : Config) (name id : Bytes) (w w₀ w₁ w₂ : W)
      → c.auto_remove ≡ false
      → e.container_create c name w ≡ ok (id, w₀)
      → e.container_start id w₀ ≡ ok w₁
      → e.container_wait id w₁ ≡ ok w₂
      → e.daemon.container_list w₂ ≡ e.daemon.container_list w₁
  pub remove-wait :
      (c : Config) (name id : Bytes) (w w₀ w₁ w₂ : W)
      → c.auto_remove ≡ false
      → e.container_create c name w ≡ ok (id, w₀)
      → e.container_start id w₀ ≡ ok w₁
      → e.container_wait id w₁ ≡ ok w₂
      → (w₃ : W) × (e.daemon.container_remove false id w₂ ≡ ok w₃)

module _ {W : Type 0} (e : Engine W) (law : IsEngine e) (image name : Bytes)
    (params : DockerRunParams) where
  abbrev pub new_container : Bytes → Container
  new_container id = record { id = id; names = (b'/' ∷ name) ∷ [] }

  -- A Run whose container cannot be started returns the error and leaves the container behind,
  -- whatever the parameters say of its removal.
  run_container_leaks :
      (message : String) (id : Bytes) (cs : List Container) (w w₀ : W)
      → e.daemon.container_list w ≡ ok cs
      → e.container_create (config_of image params) name w ≡ ok (id, w₀)
      → e.container_start id w₀ ≡ err message
      → (run_container e image name params w ≡ failed message w₀)
        × (e.daemon.container_list w₀ ≡ ok (new_container id ∷ cs))
  unfolding run_container
  run_container_leaks message id cs w w₀ l created start =
      (rw (created, start), law.list-create (config_of image params) name id cs w w₀ created l)
