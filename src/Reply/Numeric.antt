-- ===== src/Reply/Numeric.antt =====
-- The numbers of common/Reply.hpp.
use ft_irc.Base.{ℕ}

abbrev pub rpl_channelmodeis : ℕ
rpl_channelmodeis = 324

abbrev pub rpl_topic : ℕ
rpl_topic = 332

abbrev pub rpl_notopic : ℕ
rpl_notopic = 331

abbrev pub rpl_namreply : ℕ
rpl_namreply = 353

abbrev pub rpl_endofnames : ℕ
rpl_endofnames = 366

abbrev pub rpl_inviting : ℕ
rpl_inviting = 341

abbrev pub err_nosuchnick : ℕ
err_nosuchnick = 401

abbrev pub err_nosuchchannel : ℕ
err_nosuchchannel = 403

abbrev pub err_cannotsendtochan : ℕ
err_cannotsendtochan = 404

abbrev pub err_norecipient : ℕ
err_norecipient = 411

abbrev pub err_notexttosend : ℕ
err_notexttosend = 412

abbrev pub err_notonchannel : ℕ
err_notonchannel = 442

abbrev pub err_usernotinchannel : ℕ
err_usernotinchannel = 441

abbrev pub err_useronchannel : ℕ
err_useronchannel = 443

abbrev pub err_needmoreparams : ℕ
err_needmoreparams = 461

abbrev pub err_keyset : ℕ
err_keyset = 467

abbrev pub err_inviteonlychan : ℕ
err_inviteonlychan = 473

abbrev pub err_badchannelkey : ℕ
err_badchannelkey = 475

abbrev pub err_badchanmask : ℕ
err_badchanmask = 476

abbrev pub err_channelisfull : ℕ
err_channelisfull = 471

abbrev pub err_unknownmode : ℕ
err_unknownmode = 472

abbrev pub err_chanoprivsneeded : ℕ
err_chanoprivsneeded = 482

abbrev pub err_invalidkey : ℕ
err_invalidkey = 525

abbrev pub err_invalidmodeparam : ℕ
err_invalidmodeparam = 696
