-- ===== src/Submit/Prepare/Joins.antt =====
-- RunInstances, from the answer to the token request to the order that is sent.
use ens_provider.Prelude.{
  ℕ, ◌≡◌, ◌⊎◌, true, some, [], ◌∷◌, ◌++◌, Str, codes, pos, decimal, str_eq, if◌then◌else◌,
}
use ens_provider.Config.{Config, Group, Labels, label_value}
use ens_provider.Inventory.{ok, err}
use ens_provider.Order.{Context, userdata_failed}
use ens_provider.Submit.Prepare.{attached, run_joining}
use ens_provider.Submit.Isolation.{guarded}
use ens_provider.Submit.Run.{CloudState, Outside, op_name, prepare_query, order_state}
use ens_provider.Userdata.{breaks_quoting, script_of, build_node_spec}
use ens_provider.Userdata.Base64.{base64_encode}
use ens_provider.Userdata.AttachToken.{AttachReply, script_body, fetch_attach_token}
use ens_provider.Userdata.AttachToken.Fetched.{IsTokenOf}
use ens_provider.Userdata.Quoting.{blank, quoted_words}
use ens_provider.Userdata.Quoting.Scripted.{own_words}

module _ (d : Config) (ctx : Context) (g : Group) (count : ℕ) (reply : AttachReply) (o : Outside)
    (op_id : Str) (st : CloudState) where
  -- Nothing is ordered: there is no token that the script may hold.
  pub record IsRefused : Type 0 where
    pub why :
        ((e : Str) × (fetch_attach_token reply ≡ err e))
        ⊎ ((token : Str) × (fetch_attach_token reply ≡ ok token) × (breaks_quoting token ≡ true))
    pub error : Str
    pub result :
        run_joining d ctx g (pos count) reply o st ≡ (st, ([], some (userdata_failed error)))

  -- The order is prepared around the token of the answer.
  pub record IsJoining : Type 0 where
    pub body : Str
    pub token : Str
    pub answered : reply ≡ script_body body
    pub found : IsTokenOf body token
    pub query : Labels
    pub prepared :
        prepare_query d g (pos count) (op_name g op_id o.unix) (base64_encode (script_of d g token))
        ≡ some query
    pub named : label_value query (codes "InstanceName") ≡ op_name g op_id o.unix
    pub amount : label_value query (codes "Amount") ≡ decimal count
    pub sent : label_value query (codes "UserData") ≡ base64_encode (script_of d g token)
    pub words :
        quoted_words blank (script_of d g token) ≡ own_words ++ token ∷ build_node_spec d g ∷ []
    pub result : (run_joining d ctx g (pos count) reply o st).1 ≡ (
      (guarded d ctx g (pos count) (attached d g reply o) st (op_name g op_id o.unix) query).ids,
      (guarded d ctx g (pos count) (attached d g reply o) st (op_name g op_id o.unix) query).error,
    )
    pub reservations :
        (j : Str)
        → order_state j (run_joining d ctx g (pos count) reply o st).0.orders ≡ (
            if str_eq g.id j
            then (guarded d ctx g
                (pos count)
                (attached d g reply o)
                st
                (op_name g op_id o.unix)
                query).reservations
            else order_state j st.orders)
