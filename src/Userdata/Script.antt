-- ===== src/Userdata/Script.antt =====
-- userdata.go: the text of the join script, cut at the places where `fmt.Sprintf` puts its arguments;
-- a `%%` of the format is the byte `%`.
use ens_provider.Prelude.{[], ◌∷◌, ◌++◌, Str, codes}

-- In UTF-8.
abbrev em_dash : Str
em_dash = 226 ∷ 128 ∷ 148 ∷ []

unfoldable pub preamble : Str
preamble =
    (codes "#!/bin/bash\n"
      ++ (codes "# xtrace stays OFF: it would write the attach token into the cloud-init log.\n"
          ++ (codes "MARK=/var/log/ens-provider-join-marker\n"
              ++ (codes "stage() { echo \"$(date -u +%FT%TZ) $1\" | tee -a \"$MARK\"; }\n"
                  ++ (codes "stage begin\n"
                      ++ (codes "growpart /dev/vda 3 || true\n"
                          ++ (codes "resize2fs /dev/vda3 || true\n"
                              ++ (codes "modprobe iptable_nat\n"
                                  ++ (codes
                                        "echo iptable_nat >> /etc/modules-load.d/iptable_nat.conf\n"
                                      ++ (codes
                                            "sed -i 's/223.5.5.5/8.8.8.8/g' /etc/resolv.conf || true\n"
                                          ++ (codes "stage os-prep-done\n"
                                              ++ (codes "(\n"
                                                  ++ (codes "  for i in $(seq 1 90); do\n"
                                                      ++ (codes
                                                            "    LOCALIP=$(ip -4 addr show eth0 | awk '/inet /{print $2}' | cut -d/ -f1 | head -1)\n"
                                                          ++ (codes
                                                            "    [ -n \"$LOCALIP\" ] && ip rule del from \"$LOCALIP\" lookup ens_eth0 2>/dev/null\n"
                                                            ++ (codes
                                                            "    if [ -f /etc/cni/net.d/10-flannel.conflist ] && [ -f /etc/cni/net.d/0-loopback.conf ]; then\n"
                                                            ++ (codes
                                                            "      mv /etc/cni/net.d/0-loopback.conf /etc/cni/net.d/99-loopback.conf\n"
                                                            ++ (codes
                                                            "      systemctl restart containerd\n"
                                                            ++ (codes "      break\n"
                                                            ++ (codes "    fi\n"
                                                            ++ (codes "    sleep 10\n"
                                                            ++ (codes "  done\n"
                                                            ++ (codes
                                                            ") >/var/log/ens-provider-node-selfheal.log 2>&1 &\n"
                                                            ++ (codes "cd /root\n"
                                                            ++ (codes
                                                            "export ARCH=$(uname -m | awk '{print ($1 == \"x86_64\") ? \"amd64\" : \"arm64\"}')\n"
                                                            ++ (codes "DL_OK=\"\"\n"
                                                            ++ (codes "for i in 1 2 3 4 5; do\n"
                                                            ++ codes
                                                            "  if wget -q \"https://aliacs-k8s-")))))))))))))))))))))))))))

unfoldable pub oss_host : Str
oss_host = codes ".oss-"

unfoldable pub attach_path : Str
attach_path = codes ".aliyuncs.com/public/pkg/run/attach/"

unfoldable pub download_and_token : Str
download_and_token =
    (codes "/${ARCH}/edgeadm\" -O edgeadm; then\n"
      ++ (codes "    DL_OK=1; break\n"
          ++ (codes "  fi\n"
              ++ (codes "  stage \"edgeadm-download-retry-$i\"\n"
                  ++ (codes "  sleep $((i * 15))\n"
                      ++ (codes "done\n"
                          ++ (codes
                                "[ -n \"$DL_OK\" ] || { stage edgeadm-download-FAILED; exit 1; }\n"
                              ++ (codes "chmod u+x edgeadm\n"
                                  ++ (codes "stage edgeadm-downloaded\n" ++ codes "TOKEN='")))))))))

unfoldable pub join_command : Str
join_command =
    (codes "'\n"
      ++ (codes "JOIN_OK=\"\"\n"
          ++ (codes "for i in 1 2 3; do\n"
              ++ codes "  if ./edgeadm join --openapi-token=\"$TOKEN\" --region=")))

unfoldable pub node_spec_flag : Str
node_spec_flag = codes " --node-spec='"

unfoldable pub join_end : Str
join_end =
    (codes "' >> /var/log/edge-join.log 2>&1; then\n"
      ++ (codes "    JOIN_OK=1; break\n"
          ++ (codes "  fi\n"
              ++ (codes "  stage \"join-retry-$i\"\n"
                  ++ (codes "  sleep $((i * 30))\n"
                      ++ (codes "done\n"
                          ++ (codes
                                "# edgeadm logs its own argv (token included) into /var/log/edgeadm.log "
                              ++ (em_dash
                                  ++ (codes "\n"
                                      ++ (codes
                                            "# scrub it (found by the N-9 sweep 2026-07-19; our own logs were clean).\n"
                                          ++ (codes
                                                "sed -i \"s/$TOKEN/REDACTED/g\" /var/log/edgeadm.log 2>/dev/null || true\n"
                                              ++ (codes "unset TOKEN\n"
                                                  ++ codes
                                                      "if [ -n \"$JOIN_OK\" ]; then stage join-done; else stage join-FAILED; exit 1; fi\n"))))))))))))

-- The script, of the control region, the region of the download host, the version of Kubernetes, the
-- token and the node spec.
unfoldable pub join_script : Str → Str → Str → Str → Str → Str
join_script control_region oss_region k8s_version token node_spec =
    preamble
    ++ (control_region
        ++ (oss_host
            ++ (oss_region
                ++ (attach_path
                    ++ (k8s_version
                        ++ (download_and_token
                            ++ (token
                                ++ (join_command
                                    ++ (control_region
                                        ++ (node_spec_flag ++ (node_spec ++ join_end)))))))))))
