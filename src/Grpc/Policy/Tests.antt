-- ===== src/Grpc/Policy/Tests.antt =====
-- The RPCs on policies with an engine that keeps the last policy.
use citius_server.Prelude.{
  suc, ◌≡◌, refl, subst, inr, true, [], arith, if◌then◌else◌, ◌==◌, Text, codes, text_eq_refl,
  text_Eq,
}
use citius_server.Errors.{ok, err, new, policy_violation, policy_not_found}
use citius_server.Grpc.Status.{Vocabulary, Status, replied, failed}
use citius_server.Grpc.Policy.{
  Policy, Engine, CryptoPolicyHandler, WriteRequest, ReadResponse, policy_format_json, new_policy,
  check_format, written, create_crypto_policy, read_crypto_policy, update_crypto_policy, ap, length,
}
use citius_server.Grpc.Policy.Laws.{IsKeeping, write-refused, read-create}

abbrev vocabulary : Vocabulary
vocabulary = record { is_domain = λ e. true; grpc_code = λ e. 3; message = λ e. [] }

abbrev last : Engine Policy
last = record {
  create_policy = λ p w. (ok (record p { version = 1 }), record p { version = 1 });
  get_policy = λ name w. (if w.name == name then ok w else err (new policy_not_found), w);
  update_policy = λ p n w. (ok (record p { version = suc n }), record p { version = suc n });
}

last-IsKeeping : IsKeeping last
last-IsKeeping = record {
  kept = λ p w {c} {w'} h.
      let made : record p { version = 1 } ≡ c = ground arith in
      let there : record p { version = 1 } ≡ w' = ground arith in
      subst (λ q. (last.get_policy p.name q).0 ≡ ok c) there
        (rw (← made, text_eq_refl p.name) refl);
  same_document =
      λ p w {c} {w'} h. let made : record p { version = 1 } ≡ c = ground arith in rw (← made) refl;
}

abbrev handler : CryptoPolicyHandler Policy
handler = record {
  policy = λ w. (ok last, w);
  authorize_policy = λ name. if name == codes "root" then err (new policy_violation) else ok tt;
}

abbrev request : Text → WriteRequest
request format = record { name = codes "p"; policy_document = codes "{}"; format = format }

abbrev none_yet : Policy
none_yet = record {
  name = [];
  public_id = [];
  rules_json = [];
  version = 0;
  create_time = 0;
  update_time = 0;
}

write-refused_example :
    ((s : Status) × (create_crypto_policy vocabulary handler (request (codes "xml")) none_yet
        ≡ (failed s, none_yet)))
    × ((s : Status) × (update_crypto_policy vocabulary handler (request (codes "xml")) 1 none_yet
          ≡ (failed s, none_yet)))
write-refused_example =
    write-refused vocabulary handler (request (codes "xml")) 1 none_yet
      (inr (inr ((λ e. omega (arith, ap length e)), (λ e. omega (arith, ap length e)))))

created :
    create_crypto_policy vocabulary handler (request []) none_yet
    ≡ (replied (record { version = 1 }), record (new_policy (request [])) { version = 1 })
unfolding create_crypto_policy check_format written
created = refl

read-create_example :
    (back : ReadResponse) × ((read_crypto_policy vocabulary handler
        (codes "p")
        (record (new_policy (request [])) { version = 1 })).0
      ≡ replied back)
    × (back.policy_document ≡ codes "{}")
    × (back.format ≡ policy_format_json)
    × (back.version ≡ 1)
read-create_example =
    read-create vocabulary handler last (λ w. refl) last-IsKeeping (request []) none_yet created
